-- ===== src/Dispatcher/Sniff.antt =====
-- app/mydispatcher/sniffer.go and the results of fakednssniffer.go: what a connection's first bytes
-- and its address say of its destination. The protocol sniffers are xray-core's, arguments here.
use xray_r4u.Base.{Bool, false, Option, none, some, List, [], ◌∷◌, Bytes, if◌then◌else◌, codes}
use xray_r4u.Text.{has_prefix}

-- What a sniffer has found: the results of xray-core's sniffers, and the three of this package.
pub data SniffResult : Type 0 where
  plain : Bytes → Bytes → SniffResult
  fake_dns : Bytes → SniffResult
  fake_dns_then_others : Bytes → Bytes → SniffResult
  composite : SniffResult → SniffResult → SniffResult

unfoldable pub domain : SniffResult → Bytes
domain (SniffResult.plain protocol name) = name
domain (SniffResult.fake_dns name) = name
domain (SniffResult.fake_dns_then_others name original) = name
domain (SniffResult.composite by_domain by_protocol) = domain by_domain

unfoldable pub protocol : SniffResult → Bytes
protocol (SniffResult.plain name _) = name
protocol (SniffResult.fake_dns _) = codes "fakedns"
protocol (SniffResult.fake_dns_then_others _ original) = codes "fakedns+others"
protocol (SniffResult.composite by_domain by_protocol) = protocol by_protocol

-- The protocol whose sniffer gave the domain: `ProtocolForDomainResult` of a composite.
unfoldable pub protocol_for_domain : SniffResult → Bytes
unfolding protocol
protocol_for_domain (SniffResult.composite by_domain by_protocol) = protocol by_domain
protocol_for_domain result = protocol result

-- False for a type without the method.
unfoldable pub is_proto_subset_of : SniffResult → Bytes → Bool
is_proto_subset_of (SniffResult.fake_dns_then_others _ original) name = has_prefix name original
is_proto_subset_of result name = false

-- An answer or its error; no sniffer gives a nil result without an error.
pub data Answer : Type 0 where
  found : SniffResult → Answer
  no_clue : Answer
  unknown_content : Answer
  timed_out : Answer
  fault : Answer

-- The payload is `none` where the sniffer gets nil.
pub record ProtocolSniffer : Type 0 where
  pub sniff_protocol : Option Bytes → Answer
  pub metadata : Bool

-- `Sniff` and `SniffMetadata` run the sniffers of their kind in order; those without a clue stay.
pub data Tried : Type 0 where
  hit : SniffResult → Tried
  pending : List ProtocolSniffer → Tried

abbrev pub keep_pending : ProtocolSniffer → Tried → Tried
keep_pending si (Tried.hit result) = Tried.hit result
keep_pending si (Tried.pending rest) = Tried.pending (si ∷ rest)

abbrev pub next_try : ProtocolSniffer → Answer → Tried → Tried
next_try si (found result) rest = Tried.hit result
next_try si no_clue rest = keep_pending si rest
next_try si _ rest = rest

unfoldable pub try_content : Bytes → List ProtocolSniffer → Tried
try_content payload [] = Tried.pending []
try_content payload (si ∷ others) =
    let rest = try_content payload others in
    if si.metadata then rest else next_try si (si.sniff_protocol (some payload)) rest

unfoldable pub try_metadata : List ProtocolSniffer → Tried
try_metadata [] = Tried.pending []
try_metadata (si ∷ others) =
    let rest = try_metadata others in
    if si.metadata then next_try si (si.sniff_protocol none) rest else keep_pending si rest

-- The list is replaced only where some sniffer is pending.
abbrev pub settle : List ProtocolSniffer → Tried → Answer × List ProtocolSniffer
settle all (Tried.hit result) = (found result, all)
settle all (Tried.pending []) = (unknown_content, all)
settle all (Tried.pending (si ∷ rest)) = (no_clue, si ∷ rest)

unfoldable pub sniff : Bytes → List ProtocolSniffer → Answer × List ProtocolSniffer
unfolding try_content
sniff payload all = settle all (try_content payload all)

unfoldable pub sniff_metadata : List ProtocolSniffer → Answer × List ProtocolSniffer
unfolding try_metadata
sniff_metadata all = settle all (try_metadata all)
