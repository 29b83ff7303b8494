-- ===== src/Sign/Burn/Kept.antt =====
-- The binding of a release keeps what is pinned: a pin is replaced only by one of the same hash
-- that is at least as deep.
use enclave_signer.Prelude.{ℕ, Option, List, [], ◌∷◌, ok, err, ok_or, Bytes}
use enclave_signer.Config.{BtcRelayMode}
use enclave_signer.Error.{EnclaveResult, cross_check}
use enclave_signer.Spv.Types.{Bitcoin}
use enclave_signer.Spv.Chain.{HeaderChain}
use enclave_signer.Spv.CrossCheck.{MerkleProofEntry, ValidatedConsignment, ChainPins, pin}
use enclave_signer.Spv.CrossCheck.Pins.{IsPinned, pin-IsPinned}
use enclave_signer.Spv.CrossCheck.Again.{AllPinned}
use enclave_signer.Evm.Relay.{
  ReleaseIdentity, and_then, decode_blocks, check_lag, verify_btc_relay_agreement,
}
use enclave_signer.Evm.Release.{
  BurnDestinationRecord, Codecs, assert_witnesses_confirmed, apply_funds_out_binding,
}

-- A step that keeps a property of the pins is followed by steps that keep it.
and_then_keeps :
    {A B : Type 0} (P : ChainPins → Type 0) (x : ChainPins × EnclaveResult A)
    (f : ChainPins → A → ChainPins × EnclaveResult B)
    → P x.0
    → ((a : A) → P (f x.0 a).0)
    → P (and_then x f).0
and_then_keeps P (pins, ok a) f p q = q a
and_then_keeps P (pins, err e) f p q = p

abbrev Keeps : ℕ → ℕ → ℕ → ChainPins → Type 0
Keeps height hash least pins = IsPinned pins height hash least

module _ (codecs : Codecs) (btc : Bitcoin) (sha256d keccak256 : Bytes → Bytes)
    (c : HeaderChain btc.Header) (mode : BtcRelayMode) (confirmations : ℕ)
    (release : ReleaseIdentity) (proofs : List MerkleProofEntry) (height hash least : ℕ) where
  agreement-Keeps :
      (validated : ValidatedConsignment) (pins : ChainPins)
      → Keeps height hash least pins
      → Keeps height hash least
          (verify_btc_relay_agreement btc sha256d keccak256 release validated proofs c pins mode
            confirmations).0
  unfolding verify_btc_relay_agreement
  agreement-Keeps validated pins p =
      and_then_keeps (Keeps height hash least) (pins, decode_blocks btc release c) _ p
        λ blocks.
          let latest = blocks.1 in
          and_then_keeps (Keeps height hash least) (pin pins c latest.height 1) _
            (pin-IsPinned c pins latest.height 1 p)
            λ _.
              let pins1 = (pin pins c latest.height 1).0 in
              let p1 = pin-IsPinned c pins latest.height 1 p in
              and_then_keeps (Keeps height hash least)
                (pins1, check_lag btc sha256d latest validated proofs c confirmations) _ p1
                λ anchor.
                  let p2 = pin-IsPinned c pins1 anchor.height confirmations p1 in
                  and_then_keeps (Keeps height hash least) (pin pins1 c anchor.height confirmations)
                    _ p2 λ _. p2

  binding-Keeps :
      (consignment : Option ValidatedConsignment) (pins : ChainPins)
      (rec : Option BurnDestinationRecord)
      → Keeps height hash least pins
      → Keeps height hash least
          (apply_funds_out_binding codecs btc sha256d keccak256 c mode confirmations release
            consignment proofs pins rec).0
  unfolding apply_funds_out_binding
  binding-Keeps consignment pins rec p =
      and_then_keeps (Keeps height hash least) (pins, ok_or consignment cross_check) _ p
        λ validated.
          and_then_keeps (Keeps height hash least) (pins, assert_witnesses_confirmed validated) _ p
            λ _.
              and_then_keeps (Keeps height hash least)
                (verify_btc_relay_agreement btc sha256d keccak256 release validated proofs c pins
                  mode confirmations)
                _ (agreement-Keeps validated pins p) λ _. agreement-Keeps validated pins p

-- All proofs' blocks stay pinned.
pub binding-AllPinned :
    (codecs : Codecs) (btc : Bitcoin) (sha256d keccak256 : Bytes → Bytes)
    (c d : HeaderChain btc.Header) (mode : BtcRelayMode) (confirmations : ℕ)
    (release : ReleaseIdentity) (cited proofs : List MerkleProofEntry)
    (consignment : Option ValidatedConsignment) (pins : ChainPins)
    (rec : Option BurnDestinationRecord)
    → AllPinned c pins confirmations proofs
    → AllPinned c
        (apply_funds_out_binding codecs btc sha256d keccak256 d mode confirmations release
          consignment cited pins rec).0
        confirmations
        proofs
binding-AllPinned codecs btc sha256d keccak256 c d mode confirmations release cited [] consignment
      pins rec a =
    tt
binding-AllPinned codecs btc sha256d keccak256 c d mode confirmations release cited (p ∷ proofs)
      consignment pins rec (a, rest) =
    (
      λ hash found.
          binding-Keeps codecs btc sha256d keccak256 d mode confirmations release cited
            p.block_height hash confirmations consignment pins rec (a hash found),
      binding-AllPinned codecs btc sha256d keccak256 c d mode confirmations release cited proofs
          consignment pins rec rest,
    )
