-- ===== src/Dispatcher/Tests.antt =====
-- Runs of the dispatcher on a node with one user, a pipe that is a list of chunks, and a sniffer that
-- takes the first bytes for a domain.
use xray_r4u.Base.{
  ℕ, ◌+◌, ◌-◌, ◌≡◌, ◌↔◌, refl, Bool, true, false, not, Option, none, some, List, [], ◌∷◌, ◌++◌,
  Bytes, codes, bytes_beq, bytes_eq, ◌&&◌, pos, ℤ, int32, if◌then◌else◌,
}
use xray_r4u.GoMap.{lookup, insert}
use xray_r4u.Text.{show_int, has_prefix}
use xray_r4u.Limiter.Online.{try_add}
use xray_r4u.Limiter.Rate.{determine_rate, tenth}
use xray_r4u.Limiter.Registry.{
  Verdict, get_user_bucket, add_inbound_limiter, store_users, email_key, admit, speed_verdict,
  bucket_for,
}
use xray_r4u.Limiter.Slots.{bump}
use xray_r4u.Limiter.Admission.{LetsIn, refs_at}
use xray_r4u.Limiter.Connections
use xray_r4u.Limiter.Tests.{test_bucket, tag_a, home, key_7, node_a, start-IsExact}
use xray_r4u.Rule.Manager.{RuleManager, detect, hit_rule_id}
use xray_r4u.Controller.Tests.{test_stats, counted}
use xray_r4u.Dispatcher.Meter.{uplink_name}
use xray_r4u.Dispatcher.Presence.{Presence}
use xray_r4u.Dispatcher.Link.{
  Session, Hook, Dispatcher, Opened, track_session, track_connection, limit_user, on_close,
  open_link, online_map_name,
}
use xray_r4u.Dispatcher.Refine.{World, Step, after_open, is_crashed, limiter_view, Step-refines}
use xray_r4u.Dispatcher.Sound.{Run, IsSound, Run-IsSound, quiet_Run-IsFree}
use xray_r4u.Dispatcher.Unhooked.{unhooked_connection_counts}
use xray_r4u.Dispatcher.Route.{
  Outbounds, Request, Chosen, IsForbidden, routed_dispatch, pick_handler,
}
use xray_r4u.Dispatcher.Cache.{
  Pipe, CachedReader, Use, use_all, still_to_read, use_all-still_to_read, cache_payload,
}
use xray_r4u.Dispatcher.Sniff.{
  SniffResult, Answer, found, no_clue, ProtocolSniffer, sniff, sniff_metadata, try_content,
  try_metadata, domain, protocol, protocol_for_domain, is_proto_subset_of,
}
use xray_r4u.Dispatcher.Sniffer.{sniffer, sniff_loop, EndsWithin, sniff_loop-EndsWithin}
use xray_r4u.Dispatcher.Override.{
  Destination, Targets, tcp, apply_sniffed, override, should_override,
}
use xray_r4u.Dispatcher.FakeDns.{new_sniffer}
use xray_r4u.Dispatcher.Dispatch.{Features, Connection, State, sniff_target, request_of, dispatch}
use xray_r4u.Dispatcher.Obeys.{handler_at, IsAdmitted, dispatch-Chosen}

-- The counts of each name and address; the loopback address is not counted.
abbrev pub maps : Presence
maps = record {
  State = Bytes → Bytes → ℕ;
  counts = λ ip. not (bytes_beq ip (codes "127.0.0.1"));
  online = λ n ip s. s n ip;
  get_or_register = λ n s. (true, s);
  add_ip = λ n ip s m at_ip.
      s m at_ip
      + bump (not (bytes_beq ip (codes "127.0.0.1")) && (bytes_beq n m && bytes_beq ip at_ip));
  remove_ip = λ n ip s m at_ip. s m at_ip - bump (bytes_beq n m && bytes_beq ip at_ip);
  online-get_or_register = λ n m ip s. refl;
  online-add_ip = λ n ip m at_ip s. refl;
  online-remove_ip = λ n ip m at_ip s. refl;
}

abbrev pub session : Session
session = record { tag = tag_a; source = some home; user = some key_7 }

abbrev hook : Hook
hook = record { tag = tag_a; ip = home; email = key_7 }

abbrev pub idle : Dispatcher maps ℤ
idle = record { presence = λ n ip. 0; limiter = node_a }

abbrev quiet : World maps ℤ test_bucket
quiet = record { disp = idle; live = [] }

abbrev one_open : World maps ℤ test_bucket
one_open = after_open maps ℤ test_bucket [] (open_link maps ℤ test_bucket (some session) idle)

session_runs :
    is_crashed maps ℤ test_bucket (open_link maps ℤ test_bucket (some session) idle).0 ≡ false
unfolding open_link track_session track_connection limit_user on_close get_user_bucket
    add_inbound_limiter lookup store_users insert email_key show_int int32 admit try_add
    speed_verdict bucket_for determine_rate tenth
session_runs = refl

one_open-live : one_open.live ≡ hook ∷ []
unfolding open_link track_session track_connection limit_user on_close get_user_bucket
    add_inbound_limiter lookup store_users insert email_key show_int int32 admit try_add
    speed_verdict bucket_for determine_rate tenth
one_open-live = refl

Step-refines_example :
    Connections.Reach test_bucket
      (limiter_view maps ℤ test_bucket quiet)
      (limiter_view maps ℤ test_bucket one_open)
Step-refines_example =
    Step-refines maps ℤ test_bucket {w = quiet} {v = one_open}
      (Step.open_one session home refl refl session_runs)

abbrev closed : World maps ℤ test_bucket
closed = record { disp = on_close maps ℤ hook one_open.disp; live = [] }

-- A connection comes and ends.
one_connection : Run maps ℤ test_bucket quiet closed
one_connection =
    Run.more (Run.more Run.stay (Step.open_one session home refl refl session_runs))
      (Step.close_one [] [] hook one_open-live)

no_entries : (b : Bool) → let free : ℕ = 0 in free ≡ (if b then free else free)
no_entries true = refl
no_entries false = refl

quiet-IsSound : IsSound maps ℤ test_bucket quiet
quiet-IsSound = record {
  limited = start-IsExact;
  present = λ name ip. no_entries (not (bytes_beq ip (codes "127.0.0.1")));
}

Run-IsSound_example : IsSound maps ℤ test_bucket closed
Run-IsSound_example = Run-IsSound maps ℤ test_bucket one_connection quiet-IsSound

quiet_Run-IsFree_example :
    (refs_at tag_a key_7 home closed.disp.limiter ≡ 0)
    × (closed.disp.presence (online_map_name tag_a) home ≡ 0)
quiet_Run-IsFree_example =
    quiet_Run-IsFree maps ℤ test_bucket one_connection quiet-IsSound refl tag_a key_7
      (online_map_name tag_a) home

abbrev pub joined : List Bytes → Bytes
joined [] = []
joined (c ∷ cs) = c ++ joined cs

abbrev pub next_chunk : List Bytes → (Bytes × Bool) × List Bytes
next_chunk [] = (([], true), [])
next_chunk (c ∷ cs) = ((c, false), cs)

pub next_chunk-rest : (r : List Bytes) → joined r ≡ (next_chunk r).0.0 ++ joined (next_chunk r).1
next_chunk-rest [] = refl
next_chunk-rest (c ∷ cs) = refl

abbrev pub chunks : Pipe
chunks = record {
  Reader = List Bytes;
  rest = joined;
  read_multi_buffer = next_chunk;
  read_multi_buffer_timeout = next_chunk;
  read-rest = next_chunk-rest;
  read_timeout-rest = next_chunk-rest;
}

abbrev greeting : CachedReader chunks
greeting = record { reader = codes "he" ∷ codes "llo" ∷ []; cache = [] }

abbrev looks_and_reads : List (Use chunks)
looks_and_reads = Use.look 1 ∷ Use.look 8 ∷ Use.take_in ∷ Use.take_in_time ∷ []

use_all-still_to_read_example :
    still_to_read chunks greeting
    ≡ (use_all chunks looks_and_reads greeting).0
      ++ still_to_read chunks (use_all chunks looks_and_reads greeting).1
use_all-still_to_read_example = use_all-still_to_read chunks looks_and_reads greeting

-- The first bytes are the domain.
abbrev pub first_bytes : Option Bytes → Answer
first_bytes none = no_clue
first_bytes (some payload) = found (SniffResult.plain (codes "http") payload)

abbrev pub by_bytes : ProtocolSniffer
by_bytes = record { sniff_protocol = first_bytes; metadata = false }

abbrev pub ads : Bytes
ads = codes "ads.test"

abbrev pub never : ℕ → Bool
never n = false

abbrev pub not_full : Bytes → Bool
not_full b = false

sniff_loop-EndsWithin_example :
    EndsWithin
      (CachedReader chunks)
      (cache_payload chunks 8)
      never
      not_full
      2
      3
      0
      (by_bytes ∷ [])
      greeting
sniff_loop-EndsWithin_example =
    sniff_loop-EndsWithin (CachedReader chunks) (cache_payload chunks 8) never not_full 0
      (by_bytes ∷ []) greeting

abbrev pub handlers : Outbounds Bytes
handlers = record {
  get_handler = λ tag. if bytes_beq tag (codes "proxy") then some tag else none;
  default_handler = some (codes "direct");
  tag_of = λ h. h;
}

abbrev pub rules : RuleManager
rules = record {
  inbound_rule = (tag_a, record { id = pos 3; pattern = some ads } ∷ []) ∷ [];
  inbound_detect_result = [];
}

abbrev pub features : Features Bytes
features = record {
  matches = bytes_beq;
  is_valid = λ d. true;
  show = λ d. d.address;
  is_ip = λ a. true;
  parse_address = λ name. name;
  three = by_bytes ∷ [];
  engine = none;
  size = 8;
  is_full = not_full;
}

abbrev pub to_address : Bytes → Destination Bytes
to_address address = record { network = tcp; address = address; port = 443 }

-- A connection to an address whose first bytes name a forbidden domain.
abbrev pub to_ads : Connection maps chunks Bytes ℤ Bytes handlers
to_ads = record {
  session = some session;
  destination = to_address (codes "1.2.3.4");
  sniffing = record {
    enabled = true;
    metadata_only = false;
    route_only = true;
    protocols = codes "http" ∷ [];
    excludes = λ name. false;
  };
  reader = some (ads ∷ []);
  cancelled = never;
  in_tag = tag_a;
  forced_tag = [];
  pick_route = λ targets. some none;
  access = none;
}

abbrev ads_targets : Targets Bytes
ads_targets = record {
  target = to_address (codes "1.2.3.4");
  route_target = some (to_address ads);
  content = some (codes "http");
}

ads_sniffed :
    sniff_target maps chunks Bytes ℤ Bytes handlers features to_ads
    ≡ some (to_address ads, ads_targets)
unfolding sniff_target new_sniffer sniffer sniff_loop sniff sniff_metadata try_content try_metadata
    cache_payload apply_sniffed override should_override domain protocol protocol_for_domain
    is_proto_subset_of has_prefix
ads_sniffed = refl

abbrev pub state : State maps chunks Bytes ℤ Bytes handlers
state = record { disp = idle; rules = rules }

abbrev ads_request : Request
ads_request = request_of maps chunks Bytes ℤ Bytes handlers to_ads ads_targets

dispatch-Chosen_example :
    (handler_at maps chunks Bytes ℤ Bytes handlers
        (dispatch maps chunks Bytes ℤ Bytes handlers test_bucket features to_ads state)
      ≡ some (codes "direct"))
    ↔ ((true ≡ true)
        × (IsAdmitted maps chunks Bytes ℤ Bytes handlers test_bucket (some session) idle
            × ((IsForbidden Bytes handlers bytes_beq (some session) ads rules → ⊥)
                × Chosen Bytes handlers ads_request (codes "direct"))))
dispatch-Chosen_example =
    dispatch-Chosen maps chunks Bytes ℤ Bytes handlers test_bucket features to_ads state
      (to_address ads) ads_targets (codes "direct") ads_sniffed

counted_there : test_stats.has_counter (uplink_name (codes "v_::_80|seven|7")) counted ≡ true
unfolding lookup uplink_name
counted_there = refl

abbrev unsniffed : Connection maps chunks Bytes ℤ Bytes handlers
unsniffed = record to_ads { sniffing = record to_ads.sniffing { enabled = false } }

unsniffed_handled :
    handler_at maps chunks Bytes ℤ Bytes handlers
      (dispatch maps chunks Bytes ℤ Bytes handlers test_bucket features unsniffed state)
    ≡ some (codes "direct")
unfolding dispatch sniff_target open_link track_session track_connection limit_user get_user_bucket
    add_inbound_limiter lookup store_users insert email_key show_int int32 admit try_add
    speed_verdict bucket_for determine_rate tenth routed_dispatch detect pick_handler hit_rule_id
unsniffed_handled = refl

-- A session without a source address.
abbrev unsourced : Session
unsourced = record { tag = tag_a; source = none; user = some key_7 }

unsourced-LetsIn : LetsIn (get_user_bucket test_bucket tag_a key_7 [] node_a).0
unfolding get_user_bucket add_inbound_limiter lookup store_users insert email_key show_int int32
    admit try_add speed_verdict bucket_for determine_rate tenth
unsourced-LetsIn = (refl, refl)

unsourced-unhooked : (track_session maps ℤ unsourced idle).0 ≡ none
unfolding track_session
unsourced-unhooked = refl

unhooked_connection_counts_example :
    let r = open_link maps ℤ test_bucket (some unsourced) idle in
    ((verdict : Verdict ℤ) × (r.0 ≡ Opened.admitted none verdict))
    × (refs_at tag_a key_7 [] r.1.limiter ≡ refs_at tag_a key_7 [] node_a + 1)
unhooked_connection_counts_example =
    unhooked_connection_counts maps ℤ test_bucket unsourced idle unsourced-unhooked refl
      unsourced-LetsIn
