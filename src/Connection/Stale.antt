-- ===== src/Connection/Stale.antt =====
-- Fastcgi/Connection.h: commitReplyImpl for requests that are gone.
use santiago_old.Prelude.{ℕ, ◌≡◌, List, none}
use santiago_old.Exec.{ok}
use santiago_old.OrderedMap.{nat_key, find}
use santiago_old.RequestData.{RequestData}
use santiago_old.ConnectionData.{Entry, new_connection_data}
use santiago_old.ConnectionData.Changes.{Op, perform}
use santiago_old.ConnectionData.Addresses.{
  Holds, run, IsAddressed, new-IsAddressed, run-IsAddressed, run-IsDead, removed-IsDead,
  is_valid_request-IsDead,
}
use santiago_old.Connection.{Connection, commit_reply_impl}

-- Once an operation has taken a request out of the map, by an abort or by the clean-up after its
-- reply, a reply with its object does nothing: not after any further operations, not if the id is in
-- use again, and under no id.
pub stale_reply :
    (memory : ℕ → RequestData) (before after : List Op) (op : Op) (i j : ℕ) (e : Entry)
    (c : Connection)
    → Holds (run before (new_connection_data memory)) i e
    → find i (perform op (run before (new_connection_data memory))).1.request_map ≡ none
    → c.connection_data ≡ run after (perform op (run before (new_connection_data memory))).1
    → commit_reply_impl j e.request_data c ≡ (ok tt, c)
unfolding commit_reply_impl
stale_reply memory before after op i j e c held gone now =
    let d = run before (new_connection_data memory) in
    let addressed : IsAddressed d =
      run-IsAddressed before (new_connection_data memory) (new-IsAddressed memory) in
    let dead = run-IsDead after _ e.request_data (removed-IsDead op d i e addressed held gone) in
    let invalid = is_valid_request-IsDead j e.request_data _ dead in rw (now, invalid)
