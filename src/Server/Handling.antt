-- ===== src/Server/Handling.antt =====
-- Server/Server.h and Server/RequestHandler.h: what a new request and the user post in the strand of a
-- handler.
use santiago_old.Prelude.{
  ℕ, ◌≡◌, ◌∙◌, ◌==◌, true, refl, ap, List, [], ◌∷◌, ◌++◌, map, append_assoc, append-nil, Option,
  none, some, arith,
}
use santiago_old.Exec.{Exec, Outcome, ok, thrown, halted, pure, ◌>>◌}
use santiago_old.OrderedMap.{find, assign, find-assign}
use santiago_old.Pairs.{ParamsMap}
use santiago_old.Request.{RequestId, Held, get_id, get_fcgi_params}
use santiago_old.RequestHandler.{
  Hosted, HandlerTask, handle_request_task, callback_task, init, post, post_in_strand, get_strand,
  check_is_initialized, dereference,
}
use santiago_old.Server.{
  Server, id_key, id_same_iff, hosted, with_hosted, post_handle_request, store_handler,
  handle_new_request,
}

-- The user posts some callbacks.
unfoldable pub post_all : List ℕ → Exec Hosted (Unit {0})
post_all [] = pure tt
post_all (f ∷ fs) = post_in_strand f >> post_all fs

-- A handler whose strand is s, in which these tasks wait.
record Awaits (s : ℕ) (ts : List HandlerTask) (h : Hosted) : Type 0 where
  at : h.handler.strand ≡ some s
  tasks : h.strands.tasks s ≡ ts

init-Awaits : (h : Hosted) → Awaits h.strands.next_strand [] (init h)
unfolding init
init-Awaits h = record { at = refl; tasks = ground arith }

post-Awaits :
    (s : ℕ) (t : HandlerTask) (ts : List HandlerTask) (h : Hosted)
    → Awaits s ts h
    → Awaits s (ts ++ (t ∷ [])) (post s t h).1
unfolding post
post-Awaits s t ts h v = record {
  at = v.at;
  tasks = ground (arith, ap (λ x. x ++ (t ∷ [])) v.tasks);
}

post_in_strand-posts :
    (f s : ℕ) (ts : List HandlerTask) (h : Hosted)
    → Awaits s ts h
    → post_in_strand f h ≡ (ok tt, (post s (callback_task f) h).1)
unfolding post post_in_strand check_is_initialized dereference
post_in_strand-posts f s ts h v = ground (arith, v.at)

post_handle_request-posts :
    (i : RequestId) (s : ℕ) (ts : List HandlerTask) (h : Hosted)
    → Awaits s ts h
    → post_handle_request i h ≡ (ok tt, (post s (handle_request_task i) h).1)
unfolding post post_handle_request get_strand check_is_initialized dereference
post_handle_request-posts i s ts h v = ground (arith, v.at)

post_all-Awaits :
    (fs : List ℕ) (s : ℕ) (ts : List HandlerTask) (h : Hosted)
    → Awaits s ts h
    → ((post_all fs h).0 ≡ ok tt) × Awaits s (ts ++ map callback_task fs) (post_all fs h).1
unfolding post_all
post_all-Awaits [] s ts h v = (refl, rw (append-nil ts) v)
post_all-Awaits (f ∷ fs) s ts h v =
    let t = callback_task f in
    let (returns, w) =
      post_all-Awaits fs s (ts ++ (t ∷ [])) (post s t h).1 (post-Awaits s t ts h v) in
    rw (post_in_strand-posts f s ts h v)
      (returns, rw (← append_assoc ts (t ∷ []) (map callback_task fs)) w)

-- A request that is given to a handler, whose user then posts some callbacks.
pub record Hands (i : RequestId) (h strand : ℕ) (fs : List ℕ) (r : Outcome (Unit {0}) × Server)
    : Type 0 where
  pub returns : r.0 ≡ ok tt
  pub kept : find i r.1.active_request_handlers ≡ some h
  pub posts : (post_all fs (hosted h r.1)).0 ≡ ok tt
  pub waits :
      (post_all fs (hosted h r.1)).1.strands.tasks strand
      ≡ handle_request_task i ∷ map callback_task fs

hosted-with_hosted : (h : ℕ) (p : Hosted) (s : Server) → hosted h (with_hosted h p s) ≡ p
unfolding hosted with_hosted
hosted-with_hosted h p s = let same : (h == h) ≡ true = ground arith in rw same refl

stored_lem :
    (i : RequestId) (h : ℕ) (fs : List ℕ) (n : ℕ) (s : Server) (p : Hosted)
    → find i (assign i h s.active_request_handlers) ≡ some h
    → (post_all fs p).0 ≡ ok tt
    → (post_all fs p).1.strands.tasks n ≡ handle_request_task i ∷ map callback_task fs
    → Hands i h n fs (
      ok tt,
      record (with_hosted h p s) {
        active_request_handlers = assign i h s.active_request_handlers;
        live = i ∷ s.live;
      },
    )
unfolding hosted with_hosted
stored_lem i h fs n s p kept posts waits =
    let back = hosted-with_hosted h p s in
    record {
      returns = refl;
      kept = kept;
      posts = ap (λ x. (post_all fs x).0) back ∙ posts;
      waits = ap (λ x. (post_all fs x).1.strands.tasks n) back ∙ waits;
    }

store_handler-Hands :
    (i : RequestId) (h : ℕ) (fs : List ℕ) (s : Server)
    → find i s.active_request_handlers ≡ none
    → Hands i h s.strands.next_strand fs (store_handler i h s)
unfolding store_handler with_hosted hosted
store_handler-Hands i h fs s missing =
    let n = s.strands.next_strand in
    let t = handle_request_task i in
    let started : Hosted = hosted h s in
    let v = init-Awaits started in
    let w = post-Awaits n t [] (init started) v in
    let p = (post n t (init started)).1 in
    let e = post_handle_request-posts i n [] (init started) v in
    let (posts, waits) = post_all-Awaits fs n (t ∷ []) p w in
    let kept : find i (assign i h s.active_request_handlers) ≡ some h =
      find-assign i i h s.active_request_handlers ∙ rw ((id_same_iff i i).1 refl) refl in
    rw (missing, store_handler) (rw e (stored_lem i h fs n s p kept posts waits.tasks))

handed :
    (route : ParamsMap → Option ℕ) (params : ParamsMap) (h : ℕ) (held : Held) (s : Server)
    → (get_fcgi_params held).0 ≡ ok params
    → route params ≡ some h
    → handle_new_request route held s ≡ store_handler (get_id held.request) h s
unfolding handle_new_request
handed route params h held s read routed =
    ap
      (λ (o : Outcome ParamsMap). elim o as (λ _. Outcome (Unit {0}) × Server) [
        | thrown e ↦ (thrown e, s)
        | halted x ↦ (halted x, s)
        | ok params ↦ elim (route params) [
          | none ↦ (ok tt, s)
          | some h ↦ store_handler (get_id held.request) h s
        ]
      ])
      read
    ∙ ap
        (λ (o : Option ℕ). elim o as (λ _. Outcome (Unit {0}) × Server) [
          | none ↦ (ok tt, s)
          | some h ↦ store_handler (get_id held.request) h s
        ])
        routed

-- A request whose params route sends to a handler, under an id that has none: handleNewRequest
-- returns, stores the handler, and gives it a new strand in which its handleRequest waits; and the
-- callbacks that the user then posts through postInStrand do not throw, and wait in this strand
-- behind handleRequest, each once and in the order in which they were posted.
pub handle_new_request-Hands :
    (route : ParamsMap → Option ℕ) (params : ParamsMap) (h : ℕ) (fs : List ℕ) (held : Held)
    (s : Server)
    → (get_fcgi_params held).0 ≡ ok params
    → route params ≡ some h
    → find (get_id held.request) s.active_request_handlers ≡ none
    → Hands (get_id held.request) h s.strands.next_strand fs (handle_new_request route held s)
handle_new_request-Hands route params h fs held s read routed missing =
    rw (handed route params h held s read routed)
      (store_handler-Hands (get_id held.request) h fs s missing)
