-- ===== src/AnyTls/Tests.antt =====
-- Runs of the AnyTLS inbound, with a hash that pads a password to 32 bytes.
use xray_r4u.Base.{
  ℕ, zero, suc, ◌≡◌, refl, false, Option, none, some, List, [], ◌∷◌, ◌++◌, Bytes, codes, bytes_eq,
  nat_eq, take, arith,
}
use xray_r4u.GoMap.{IsMap, lookup, insert}
use xray_r4u.Text.{
  split_host_port, trim_space, trim_left, trim_right, split_last, contains, unbracket, atoi,
}
use xray_r4u.AnyTls.Fallback.{
  to4, is_blocked_fallback_ip, is_blocked_fallback_host, validate_fallback_addr,
  resolve_and_check_fallback, has_suffix, is_link_local_unicast,
}
use xray_r4u.AnyTls.Service.{
  User, Service, fallback, accept, is_known, update_users, track_session, user_table, read_hello,
}
use xray_r4u.AnyTls.Revoke.{keep_if_listed, update_users-sessions, late-track_session}
use xray_r4u.AnyTls.Sessions.{World, Step, Reach, IsCurrent, IsKnown, Reach-IsCurrent}
use xray_r4u.AnyTls.Hello.{hello_of, read_hello-hello_of}

abbrev pub zeros : ℕ → Bytes
zeros zero = []
zeros (suc n) = 0 ∷ zeros n

abbrev pub pad : Bytes → Bytes
pad s = take 32 (s ++ zeros 32)

abbrev pub ann : User
ann = record { name = codes "a|ann|1"; password = codes "ann" }

abbrev pub bob : User
bob = record { name = codes "a|bob|2"; password = codes "bob" }

abbrev pub both : Service
both = record {
  users = (pad (codes "ann"), codes "a|ann|1") ∷ (pad (codes "bob"), codes "a|bob|2") ∷ [];
  sessions = (1, pad (codes "ann")) ∷ (2, pad (codes "bob")) ∷ [];
}

both-IsMap : IsMap both.sessions
unfolding lookup
both-IsMap = (refl, (refl, tt))

update_users-sessions_example :
    lookup 1 (update_users pad (bob ∷ []) both).sessions
    ≡ keep_if_listed pad (bob ∷ []) (lookup 1 both.sessions)
update_users-sessions_example = update_users-sessions pad (bob ∷ []) both 1 both-IsMap

-- Ann's third session was read before she was dropped.
late-track_session_example :
    let late = track_session (pad (codes "ann")) 3 (update_users pad (bob ∷ []) both) in
    (lookup 3 late.sessions ≡ some (pad (codes "ann")))
    × ((is_known pad (lookup (pad (codes "ann")) late.users) ≡ false)
        × (lookup 3 (update_users pad (bob ∷ []) late).sessions ≡ none))
late-track_session_example =
    late-track_session pad (bob ∷ []) (bob ∷ []) both 3 (pad (codes "ann")) both-IsMap refl refl

abbrev empty : World
empty = record { service = record { users = []; sessions = [] }; pending = [] }

empty-IsCurrent : IsCurrent pad empty
unfolding lookup
empty-IsCurrent = record { keyed = tt; waiting = tt; live = λ sess hash e. absurd (ground arith) }

abbrev with_ann : World
with_ann = record { service = update_users pad (ann ∷ []) empty.service; pending = [] }

abbrev ann_comes : World
ann_comes = record with_ann { pending = (1, pad (codes "ann")) ∷ [] }

abbrev ann_live : World
ann_live = record { service = track_session (pad (codes "ann")) 1 with_ann.service; pending = [] }

abbrev ann_gone : World
ann_gone = record { service = update_users pad (bob ∷ []) ann_live.service; pending = [] }

ann-IsKnown : IsKnown pad with_ann.service (pad (codes "ann"))
unfolding update_users user_table insert lookup
ann-IsKnown = refl

ann_session : Reach pad empty ann_gone
ann_session =
    Reach.next
      (Reach.next
        (Reach.next (Reach.next Reach.here (Step.change (ann ∷ []) refl))
          (Step.authenticate 1 (pad (codes "ann")) ann-IsKnown))
        (Step.track [] [] 1 (pad (codes "ann")) refl))
      (Step.change (bob ∷ []) refl)

Reach-IsCurrent_example : IsCurrent pad ann_gone
Reach-IsCurrent_example = Reach-IsCurrent pad ann_session empty-IsCurrent

ann_listed : lookup (pad (codes "ann")) both.users ≡ some (codes "a|ann|1")
unfolding lookup
ann_listed = refl

read_hello-hello_of_example :
    read_hello both (hello_of (pad (codes "ann")) 0 2 (0 ∷ 0 ∷ []) (codes "x"))
    ≡ accept (codes "a|ann|1") (pad (codes "ann")) (codes "x")
read_hello-hello_of_example =
    read_hello-hello_of both (pad (codes "ann")) (0 ∷ 0 ∷ []) (codes "x") (codes "a|ann|1") 0 2 refl
      refl ann_listed

abbrev pub probe : Bytes
probe = codes "GET / HTTP/1.1"

probe_falls_back : read_hello both probe ≡ fallback probe
unfolding read_hello
probe_falls_back = refl

abbrev pub no_literal : Bytes → Option Bytes
no_literal host = none

abbrev pub localhost : Bytes → Option (List Bytes)
localhost host = some ((127 ∷ 0 ∷ 0 ∷ 1 ∷ []) ∷ [])

abbrev pub nginx : Bytes
nginx = codes "web:443"

pub nginx_passes : resolve_and_check_fallback no_literal localhost nginx ≡ none
unfolding resolve_and_check_fallback validate_fallback_addr trim_space trim_left trim_right
    split_host_port split_last contains unbracket atoi is_blocked_fallback_host has_suffix
    is_blocked_fallback_ip to4 is_link_local_unicast
nginx_passes = refl
