-- ===== src/Connection/Announce.antt =====
-- Fastcgi/Connection.h: the calls of _newRequestCallbackFn that an event makes for requests that it
-- completes.
use santiago_old.Prelude.{
  ℕ, ◌≡◌, ◌∙◌, ◌⊎◌, inl, inr, sym, ap, List, [], ◌∷◌, ◌++◌, append-nil, append_assoc, true,
  Bool-cases, Among, Among-append_left, Among-append_right, length, drop, drop-append_length,
}
use santiago_old.Exec.{Outcome, ok, thrown, halted, continue}
use santiago_old.OrderedMap.{nat_key, find}
use santiago_old.ConnectionData.{
  ConnectionData, Entry, Notice, quiet, request_ready, became_empty, flagged, has_flag, clear,
}
use santiago_old.ConnectionData.Changes.{
  Op, perform, perform-Change, notice_of, Change, same, added, removed, marked, is_complete,
}
use santiago_old.ConnectionData.Addresses.{Holds, find-erase_sub, find-assign_cases}
use santiago_old.Connection.{
  Connection, AcceptorCall, new_request_call, close_call, is_closing, close_and_cleanup,
  handle_on_empty, handle_request_ready, on_notice, on_data, Event, step,
}
use santiago_old.Connection.Packets.{Keeps}
use santiago_old.Connection.Steps.{StepLaws, step-Keeps}
use santiago_old.Connection.Calls.{step_calls}

-- A request that is complete after a change was complete before, or is announced by it.
Change-complete :
    {d d' : ConnectionData} {n : Notice} (r : ℕ) (x : Entry)
    → Change d d' n
    → Holds d' r x
    → is_complete x ≡ true
    → Holds d r x ⊎ (n ≡ request_ready r x.request_data)
Change-complete r x (same em en q) h full = inl (rw em at h)
Change-complete r x (removed i em en q) h full = inl (find-erase_sub i r x _ (rw em at h))
Change-complete r x (added i missing em en q) h full =
    elim (find-assign_cases i r _ x _ (rw em at h)) [
      | inl (_, y) ↦ absurd (unfold is_complete has_flag in cc (y, full))
      | inr old ↦ inl old
    ]
Change-complete r x (marked i y f found open_still em en notice) h full =
    elim (find-assign_cases i r _ x _ (rw em at h)) [
      | inl (at, now) ↦
          let full_now : is_complete (flagged f y) ≡ true = ap is_complete (sym now) ∙ full in
          inr (notice ∙ rw full_now (cc (at, now)))
      | inr old ↦ inl old
    ]

-- The calls added to those of c, with one for each complete request that c did not hold.
record Announces (c d : Connection) : Type 0 where
  added : List AcceptorCall
  starts : d.calls ≡ c.calls ++ added
  announced :
      (r : ℕ) (x : Entry)
      → Holds d.connection_data r x
      → is_complete x ≡ true
      → Holds c.connection_data r x ⊎ Among (new_request_call r x.request_data) added

-- The same with the callback still to be made.
record AnnouncesWith (c : Connection) (n : Notice) (d : Connection) : Type 0 where
  added : List AcceptorCall
  starts : d.calls ≡ c.calls ++ added
  announced :
      (r : ℕ) (x : Entry)
      → Holds d.connection_data r x
      → is_complete x ≡ true
      → (Holds c.connection_data r x ⊎ Among (new_request_call r x.request_data) added)
        ⊎ (n ≡ request_ready r x.request_data)

module _ (c : Connection) where
  close_and_cleanup-Announces : Keeps (Announces c) close_and_cleanup
  unfolding close_and_cleanup clear find
  close_and_cleanup-Announces = record {
    at = λ d v. record {
      added = v.added ++ (close_call ∷ []);
      starts =
          ap (λ y. y ++ (close_call ∷ [])) v.starts
          ∙ append_assoc c.calls v.added (close_call ∷ []);
      announced = λ r x h full. cc;
    };
  }

  settled :
      (n : Notice) (d : Connection)
      → ((r q : ℕ) → ¬ (n ≡ request_ready r q))
      → AnnouncesWith c n d
      → Announces c d
  settled n d not_ready v = record {
    added = v.added;
    starts = v.starts;
    announced = λ r x h full. elim (v.announced r x h full) [
      | inl before ↦ before
      | inr now ↦ absurd (not_ready r x.request_data now)
    ];
  }

  called :
      (i q : ℕ) (d : Connection)
      → AnnouncesWith c (request_ready i q) d
      → Announces c (record d { calls = d.calls ++ (new_request_call i q ∷ []) })
  called i q d v = record {
    added = v.added ++ (t ∷ []);
    starts = ap (λ y. y ++ (t ∷ [])) v.starts ∙ append_assoc c.calls v.added (t ∷ []);
    announced = λ r x h full. elim (v.announced r x h full) [
      | inl (inl old) ↦ inl old
      | inl (inr among) ↦ inr (Among-append_left _ v.added (t ∷ []) among)
      | inr now ↦ inr (Among-append_right _ v.added (t ∷ []) (inl (cc now)))
    ];
  }
    where
      t : AcceptorCall
      t = new_request_call i q

  notice-Announces :
      (r : Outcome Notice) (d : Connection)
      → AnnouncesWith c (notice_of r) d
      → Announces c (continue r on_notice d).1
  unfolding on_notice handle_request_ready handle_on_empty
  notice-Announces (ok (request_ready i q)) d v = called i q d v
  notice-Announces (ok quiet) d v = settled quiet d (λ r q e. cc) v
  notice-Announces (ok became_empty) d v =
      let w = settled became_empty d (λ r q e. cc) v in
      elim (Bool-cases (is_closing d.state)) [
        | inl e ↦ rw e (close_and_cleanup-Announces.at d w)
        | inr e ↦ rw e w
      ]
  notice-Announces (thrown x) d v = settled quiet d (λ r q e. cc) v
  notice-Announces (halted x) d v = settled quiet d (λ r q e. cc) v

  operation-Announces : (op : Op) → Keeps (Announces c) (on_data (perform op))
  unfolding on_data
  operation-Announces op = record {
    at = λ d v.
        notice-Announces (perform op d.connection_data).0
          (record d { connection_data = (perform op d.connection_data).1 })
          (record {
            added = v.added;
            starts = v.starts;
            announced = λ r x h full.
                elim (Change-complete r x (perform-Change op d.connection_data) h full) [
                  | inl old ↦ inl (v.announced r x old full)
                  | inr now ↦ inr now
                ];
          });
  }

  Announces-laws : StepLaws (Announces c)
  Announces-laws = record {
    socket = λ d p v. record { added = v.added; starts = v.starts; announced = v.announced };
    objects = λ d o v. record { added = v.added; starts = v.starts; announced = v.announced };
    operation = operation-Announces;
    closes = close_and_cleanup-Announces;
    winds = λ d v. record { added = v.added; starts = v.starts; announced = v.announced };
  }

-- A complete request of the connection after an event was complete before it, or is in the calls that
-- the event adds.
pub step_announced :
    (e : Event) (c : Connection) (r : ℕ) (x : Entry)
    → Holds (step e c).1.connection_data r x
    → is_complete x ≡ true
    → Holds c.connection_data r x ⊎ Among (new_request_call r x.request_data) (step_calls e c).added
step_announced e c r x h full =
    let v = (step-Keeps (Announces-laws c) e).at c (record {
      added = [];
      starts = sym (append-nil c.calls);
      announced = λ i y held complete. inl held;
    }) in
    let calls = step_calls e c in
    let same_added : v.added ≡ calls.added =
      sym (drop-append_length c.calls v.added)
      ∙ ap (drop (length c.calls)) (sym v.starts ∙ calls.starts)
      ∙ drop-append_length c.calls calls.added in
    rw (← same_added) (v.announced r x h full)
