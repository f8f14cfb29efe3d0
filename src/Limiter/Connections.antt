-- ===== src/Limiter/Connections.antt =====
-- The life of connections: `Dispatch` and `DispatchLink` of app/mydispatcher/default.go admit each
-- with GetUserBucket, and its close hook calls RemoveOnlineIP once. The world is the limiter with
-- the connections that were admitted and have not closed. A step is a call that runs from its start
-- to its end: no PruneStaleEntries falls between the LoadOrStore and the tryAdd of a GetUserBucket,
-- which share no lock with it. What happens when one does is Limiter/Race.
use xray_r4u.Base.{
  ℕ, ◌+◌, ◌≡◌, Option, some, false, List, [], ◌∷◌, ◌++◌, Bytes, ℤ, if◌then◌else◌, ◌&&◌, bytes_eq,
  bytes_beq, bytes_beq_iff, arith, inl, inr, Option-cases, sym, ◌∙◌, ap,
}
use xray_r4u.GoMap.{lookup}
use xray_r4u.Api
use xray_r4u.Limiter.Online.{refs, refs-no_devices}
use xray_r4u.Limiter.Slots.{bump}
use xray_r4u.Limiter.Registry.{
  Limiter, Verdict, get_user_bucket, remove_online_ip, prune_stale_entries, update_inbound_limiter,
  tracker_or_new,
}
use xray_r4u.Limiter.Admission.{
  is_rejected, is_panicked, refs_at, get_user_bucket-refs, remove_online_ip-refs,
}
use xray_r4u.Limiter.Prune.{prune_stale_entries_invisible}
use xray_r4u.Limiter.Tracked.{
  AllTracked, get_user_bucket-AllTracked, remove_online_ip-AllTracked,
  prune_stale_entries-AllTracked, update_inbound_limiter-AllTracked,
}
use xray_r4u.Limiter.Users.{Entry, entry_at, update_inbound_limiter_lem}

pub record Conn : Type 0 where
  pub tag : Bytes
  pub email : Bytes
  pub ip : Bytes

-- The open connections of an address of a user of an inbound.
abbrev pub count_open : Bytes → Bytes → Bytes → List Conn → ℕ
count_open tag email ip [] = 0
count_open tag email ip (c ∷ cs) =
    count_open tag email ip cs
    + bump (bytes_beq c.tag tag && (bytes_beq c.email email && bytes_beq c.ip ip))

count_open-append :
    (tag email ip : Bytes) (xs ys : List Conn)
    → count_open tag email ip (xs ++ ys) ≡ count_open tag email ip xs + count_open tag email ip ys
count_open-append tag email ip [] ys = omega arith
count_open-append tag email ip (c ∷ xs) ys = omega (arith, count_open-append tag email ip xs ys)

pub record World (B : Type 0) : Type 0 where
  pub limiter : Limiter B
  pub open_conns : List Conn

abbrev pub after_connect : {B : Type 0} → Conn → List Conn → Verdict B × Limiter B → World B
after_connect c cs (verdict, l) = record {
  limiter = l;
  open_conns = if is_rejected verdict then cs else c ∷ cs;
}

abbrev pub entry_refs : {B : Type 0} → Bytes → Entry B → ℕ
entry_refs ip entry = refs ip (tracker_or_new entry.2)

pub refs_of_entry :
    {B : Type 0} (tag email ip : Bytes) (l : Limiter B)
    → refs_at tag email ip l ≡ entry_refs ip (entry_at tag email l)
refs_of_entry tag email ip l = elim (Option-cases (lookup tag l)) [
  | inl e ↦ ground (arith, refs-no_devices ip)
  | inr (info, e) ↦ ground arith
]

module _ {B : Type 0} (new_bucket : ℕ → ℤ → ℤ → Option B) where
  pub data Step (w : World B) : World B → Type 0 where
    connect :
        (c : Conn)
        → is_panicked (get_user_bucket new_bucket c.tag c.email c.ip w.limiter).0 ≡ false
        → Step w
            (after_connect c w.open_conns (get_user_bucket new_bucket c.tag c.email c.ip w.limiter))
    disconnect :
        (xs ys : List Conn) (c : Conn)
        → w.open_conns ≡ xs ++ c ∷ ys
        → Step w (record {
          limiter = remove_online_ip c.tag c.email c.ip w.limiter;
          open_conns = xs ++ ys;
        })
    prune :
        (tag : Bytes)
        → Step w (record { limiter = prune_stale_entries tag w.limiter; open_conns = w.open_conns })
    refresh :
        (tag : Bytes) (us : List Api.UserInfo) (l : Limiter B)
        → update_inbound_limiter tag us w.limiter ≡ some l
        → Step w (record { limiter = l; open_conns = w.open_conns })
    -- A connection that was turned away is closed too; its address holds nothing.
    release :
        (c : Conn)
        → refs_at c.tag c.email c.ip w.limiter ≡ 0
        → Step w (record {
          limiter = remove_online_ip c.tag c.email c.ip w.limiter;
          open_conns = w.open_conns;
        })

  pub data Reach (w : World B) : World B → Type 0 where
    here : Reach w w
    next : {u v : World B} → Reach w u → Step u v → Reach w v

  pub record IsExact (w : World B) : Type 0 where
    pub tracked : AllTracked w.limiter
    pub counted :
        (tag email ip : Bytes)
        → refs_at tag email ip w.limiter ≡ count_open tag email ip w.open_conns

  connect-IsExact :
      (w : World B) (c : Conn)
      → IsExact w
      → IsExact
          (after_connect c w.open_conns (get_user_bucket new_bucket c.tag c.email c.ip w.limiter))
  connect-IsExact w c h = record {
    tracked = get_user_bucket-AllTracked new_bucket w.limiter c.tag c.email c.ip h.tracked;
    counted = λ tag email ip. ground (
      arith,
      h.counted tag email ip,
      get_user_bucket-refs new_bucket w.limiter c.tag c.email c.ip tag email ip,
    );
  }

  disconnect-IsExact :
      (w : World B) (xs ys : List Conn) (c : Conn)
      → w.open_conns ≡ xs ++ c ∷ ys
      → IsExact w
      → IsExact (record {
        limiter = remove_online_ip c.tag c.email c.ip w.limiter;
        open_conns = xs ++ ys;
      })
  disconnect-IsExact w xs ys c e h = record {
    tracked = remove_online_ip-AllTracked new_bucket w.limiter c.tag c.email c.ip h.tracked;
    counted = λ tag email ip. omega (
      arith,
      h.counted tag email ip,
      ap (count_open tag email ip) e,
      count_open-append tag email ip xs (c ∷ ys),
      count_open-append tag email ip xs ys,
      remove_online_ip-refs w.limiter c.tag c.email c.ip tag email ip,
    );
  }

  refresh-refs :
      (l l' : Limiter B) (tag : Bytes) (us : List Api.UserInfo)
      → update_inbound_limiter tag us l ≡ some l'
      → (at_tag email ip : Bytes) → refs_at at_tag email ip l' ≡ refs_at at_tag email ip l
  refresh-refs l l' tag us ok at_tag email ip =
      refs_of_entry at_tag email ip l'
      ∙ ground (arith, update_inbound_limiter_lem l l' tag us ok at_tag email)
      ∙ sym (refs_of_entry at_tag email ip l)

  Step-IsExact : {w v : World B} → Step w v → IsExact w → IsExact v
  Step-IsExact {w} (connect c runs) h = connect-IsExact w c h
  Step-IsExact {w} (disconnect xs ys c e) h = disconnect-IsExact w xs ys c e h
  Step-IsExact {w} (prune tag) h = record {
    tracked = prune_stale_entries-AllTracked new_bucket w.limiter tag h.tracked;
    counted = λ at_tag email ip.
        (prune_stale_entries_invisible w.limiter tag (h.tracked tag)).0 at_tag email ip
        ∙ h.counted at_tag email ip;
  }
  Step-IsExact {w} (refresh tag us l ok) h = record {
    tracked = update_inbound_limiter-AllTracked new_bucket w.limiter l tag us ok h.tracked;
    counted = λ at_tag email ip.
        refresh-refs w.limiter l tag us ok at_tag email ip ∙ h.counted at_tag email ip;
  }
  Step-IsExact {w} (release c free) h = record {
    tracked = remove_online_ip-AllTracked new_bucket w.limiter c.tag c.email c.ip h.tracked;
    counted = λ tag email ip. ground (
      arith,
      h.counted tag email ip,
      bytes_beq_iff c.tag tag,
      bytes_beq_iff c.email email,
      bytes_beq_iff c.ip ip,
      remove_online_ip-refs w.limiter c.tag c.email c.ip tag email ip,
    );
  }

  -- From a state whose trackers are maps and where each address holds as many references as it has
  -- open connections: whatever connections open and close, and however often the limiter is pruned
  -- and its users refreshed between these calls, this is so again. Each call runs to its end before
  -- the next begins, and none panics.
  pub Reach-IsExact : {w v : World B} → IsExact w → Reach w v → IsExact v
  Reach-IsExact h here = h
  Reach-IsExact h (next r st) = Step-IsExact st (Reach-IsExact h r)
