-- ===== src/Dispatcher/FakeDns.antt =====
-- app/mydispatcher/fakednssniffer.go and `NewSniffer` of sniffer.go: the sniffers a connection gets.
-- The fake DNS engine is xray-core's, an argument here.
use xray_r4u.Base.{
  Bool, true, false, Option, none, some, List, [], ◌∷◌, ◌++◌, Bytes, if◌then◌else◌, ◌&&◌, ◌||◌, not,
}
use xray_r4u.Text.{is_empty}
use xray_r4u.Dispatcher.Sniff.{
  SniffResult, Answer, found, no_clue, ProtocolSniffer, domain, protocol,
}

-- Without a pool where the engine is no `FakeDNSEngineRev0`.
pub record Engine (A : Type 0) : Type 0 where
  pub domain_of : A → Bytes
  pub pool : Option (A → Bool)

-- The target of the connection's outbound, whether it is a TCP or UDP one, and its address.
pub record Target (A : Type 0) : Type 0 where
  pub is_net : Bool
  pub address : A

abbrev pub with_original : Answer → Option SniffResult
with_original (found result) =
    some (SniffResult.fake_dns_then_others (domain result) (protocol result))
with_original _ = none

abbrev pub is_some : Option Bytes → Bool
is_some none = false
is_some (some _) = true

abbrev pub or_next : Option SniffResult → Answer → Answer
or_next none rest = rest
or_next (some result) rest = found result

unfoldable pub try_others : Option Bytes → List ProtocolSniffer → Answer
try_others payload [] = no_clue
try_others payload (v ∷ others) =
    let rest = try_others payload others in
    if v.metadata || is_some payload
    then or_next (with_original (v.sniff_protocol payload)) rest
    else rest

abbrev pub others_in_range : Option Bool → Answer → Answer
others_in_range (some true) others = others
others_in_range _ others = no_clue

abbrev pub answer_or : Answer → Answer → Answer
answer_or (found result) others = found result
answer_or _ others = others

module _ {A : Type 0} where
  abbrev pub fake_dns_answer : Engine A → Target A → Answer
  fake_dns_answer engine t =
      let name = engine.domain_of t.address in
      if t.is_net && not (is_empty name) then found (SniffResult.fake_dns name) else no_clue

  -- A metadata sniffer, which does not look at the payload.
  unfoldable pub fake_dns_sniffer : Engine A → Target A → ProtocolSniffer
  fake_dns_sniffer engine t = record {
    sniff_protocol = λ _. fake_dns_answer engine t;
    metadata = true;
  }

  -- What that sniffer leaves in the context when it has no domain.
  abbrev pub address_in_range : Engine A → Target A → Option Bool
  address_in_range engine t = elim engine.pool [
    | none ↦ none
    | some in_pool ↦ some (in_pool t.address)
  ]

  unfoldable pub fake_dns_then_others : Engine A → Target A → List ProtocolSniffer → ProtocolSniffer
  unfolding try_others
  fake_dns_then_others engine t others = record {
    sniff_protocol = λ payload.
        answer_or (fake_dns_answer engine t)
          (others_in_range (address_in_range engine t) (try_others payload others));
    metadata = false;
  }

  -- `none` where no engine is there. The three of xray-core are those for HTTP, TLS and BitTorrent.
  unfoldable pub new_sniffer :
      List ProtocolSniffer → Option (Engine A) → Target A → List ProtocolSniffer
  unfolding fake_dns_sniffer fake_dns_then_others
  new_sniffer three none t = three
  new_sniffer three (some engine) t =
      fake_dns_then_others engine t three ∷ (three ++ fake_dns_sniffer engine t ∷ [])
