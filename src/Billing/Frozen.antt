-- ===== src/Billing/Frozen.antt =====
-- A frozen receipt is validated as itself.
use doppel_agent.Prelude.{
  String, ◌≡◌, refl, true, false, [], ◌∷◌, some, arith, ok, ◌>>=◌, >>=-eq-ok, guard-eq-ok,
  Bool-cases, inl, inr, ◌⊎◌,
}
use mathlib.Core.Path.{subst}
use doppel_agent.Py.{
  Value, none_value, bool, str, int, negative, dict, list, tuple, opaque, get_or, keys_are,
}
use doppel_agent.Billing.Rates.{billing_tariff_invalid}
use doppel_agent.Billing.Tariff.{
  Common, Frozen, Receipt, Profile, bounded_text, Library, enum, date, read_common, config_keys,
  reference, canonical_tariff, binding, is_after, receipt_of, freeze_canonical, freeze_tariff,
  is_hash, validate_price_receipt,
}
use doppel_agent.Billing.Receipts.{
  receipt_value, date-again, IsCommon, read_common-IsCommon, IsReceipt, read_receipt-back,
}

binding-eq-ok :
    (library : Library) (v : Value) (b : String)
    → binding library v ≡ ok b
    → (p : Profile) × (library.binding_digest p ≡ b)
unfolding binding
binding-eq-ok library (dict d) b h =
    let h1 =
      >>=-eq-ok
        (enum ("openai" ∷ "mock" ∷ "explicit_override" ∷ []) (get_or "provider" none_value d)) _
        h in
    let h2 = >>=-eq-ok (bounded_text 1 400 (get_or "model" none_value d)) _ h1.2 in
    let h3 = >>=-eq-ok (bounded_text 0 4096 (get_or "base_url" (str "") d)) _ h2.2 in
    (record { provider = h1.0; model = h2.0; base_url = h3.0 }, ground (arith, h3.2))
binding-eq-ok library none_value b h = absurd (ground (arith, h))
binding-eq-ok library (bool c) b h = absurd (ground (arith, h))
binding-eq-ok library (str s) b h = absurd (ground (arith, h))
binding-eq-ok library (int n) b h = absurd (ground (arith, h))
binding-eq-ok library (negative n) b h = absurd (ground (arith, h))
binding-eq-ok library (list xs) b h = absurd (ground (arith, h))
binding-eq-ok library (tuple xs) b h = absurd (ground (arith, h))
binding-eq-ok library (opaque n) b h = absurd (ground (arith, h))

canonical_tariff-IsCommon :
    (library : Library) (v : Value) (c : Common × String)
    → canonical_tariff library v ≡ ok c
    → IsCommon library c.0
unfolding canonical_tariff
canonical_tariff-IsCommon library (dict d) c h =
    let h1 = guard-eq-ok (keys_are config_keys d) billing_tariff_invalid _ h in
    let h2 = >>=-eq-ok (read_common library d) _ h1.1 in
    let h3 = >>=-eq-ok (reference (get_or "source_reference" none_value d)) _ h2.2 in
    let made : (h2.0, h3.0) ≡ c = ground (arith, h3.2) in
    subst (λ x. IsCommon library x.0) made (read_common-IsCommon library d h2.0 h2.1)
canonical_tariff-IsCommon library none_value c h = absurd (ground (arith, h))
canonical_tariff-IsCommon library (bool b) c h = absurd (ground (arith, h))
canonical_tariff-IsCommon library (str s) c h = absurd (ground (arith, h))
canonical_tariff-IsCommon library (int n) c h = absurd (ground (arith, h))
canonical_tariff-IsCommon library (negative n) c h = absurd (ground (arith, h))
canonical_tariff-IsCommon library (list xs) c h = absurd (ground (arith, h))
canonical_tariff-IsCommon library (tuple xs) c h = absurd (ground (arith, h))
canonical_tariff-IsCommon library (opaque n) c h = absurd (ground (arith, h))

module _ (library : Library) (source_hex : (s : String) → is_hash (library.source_digest s) ≡ true)
    (binding_hex : (p : Profile) → is_hash (library.binding_digest p) ≡ true)
    (frozen_hex : (f : Frozen) → is_hash (library.frozen_digest f) ≡ true) where
  freeze_canonical-IsReceipt :
      (profile : Value) (day : String) (c : Common × String) (r : Receipt)
      → IsCommon library c.0
      → date library (str day) ≡ ok day
      → freeze_canonical library profile day c ≡ ok (some r)
      → IsReceipt library profile r
  unfolding freeze_canonical
  freeze_canonical-IsReceipt profile day (common, source) r i d h =
      by_day (Bool-cases (is_after common.effective_date day))
    where
      frozen_of : String → Frozen
      frozen_of b = record {
        common = common;
        frozen_date = day;
        source_sha256 = library.source_digest source;
        binding_sha256 = b;
      }

      by_day :
          (is_after common.effective_date day ≡ true) ⊎ (is_after common.effective_date day ≡ false)
          → IsReceipt library profile r
      by_day (inl e) = absurd (ground (arith, e, h))
      by_day (inr e) =
          let bound : (binding library profile >>= λ b.
          ok (some (receipt_of library (frozen_of b))))
              ≡ ok (some r) =
            ground (arith, e, h) in
          let q = >>=-eq-ok (binding library profile) _ bound in
          let own = binding-eq-ok library profile q.0 q.1 in
          let made : receipt_of library (frozen_of q.0) ≡ r = ground (arith, q.2) in
          subst (IsReceipt library profile) made (record {
            common = i;
            day = d;
            effective = e;
            source = source_hex source;
            bound = subst (λ b. is_hash b ≡ true) own.1 (binding_hex own.0);
            hashed = frozen_hex (frozen_of q.0);
            digest = refl;
            owner = q.1;
          })

  freeze-IsReceipt :
      (value profile day : Value) (r : Receipt)
      → (date library day >>= λ frozen_date. canonical_tariff library value >>= λ canonical.
          freeze_canonical library profile frozen_date canonical)
        ≡ ok (some r)
      → IsReceipt library profile r
  freeze-IsReceipt value profile day r h =
      let h1 = >>=-eq-ok (date library day) _ h in
      let h2 = >>=-eq-ok (canonical_tariff library value) _ h1.2 in
      freeze_canonical-IsReceipt profile h1.0 h2.0 r
        (canonical_tariff-IsCommon library value h2.0 h2.1) (date-again library day h1.0 h1.1) h2.2

  frozen-IsReceipt :
      (value profile day : Value) (r : Receipt)
      → freeze_tariff library value profile day ≡ ok (some r)
      → IsReceipt library profile r
  unfolding freeze_tariff
  frozen-IsReceipt none_value profile day r h =
      let q = >>=-eq-ok (date library day) _ h in absurd (ground (arith, q.2))
  frozen-IsReceipt (bool b) profile day r h = freeze-IsReceipt (bool b) profile day r h
  frozen-IsReceipt (str s) profile day r h = freeze-IsReceipt (str s) profile day r h
  frozen-IsReceipt (int n) profile day r h = freeze-IsReceipt (int n) profile day r h
  frozen-IsReceipt (negative n) profile day r h = freeze-IsReceipt (negative n) profile day r h
  frozen-IsReceipt (dict d) profile day r h = freeze-IsReceipt (dict d) profile day r h
  frozen-IsReceipt (list xs) profile day r h = freeze-IsReceipt (list xs) profile day r h
  frozen-IsReceipt (tuple xs) profile day r h = freeze-IsReceipt (tuple xs) profile day r h
  frozen-IsReceipt (opaque n) profile day r h = freeze-IsReceipt (opaque n) profile day r h

  -- A receipt that was frozen from any declared tariff for a profile is validated, with that profile,
  -- as the receipt that it is, where digests are written as 64 hexadecimal digits.
  pub freeze_tariff-validate :
      (value profile day : Value) (r : Receipt)
      → freeze_tariff library value profile day ≡ ok (some r)
      → validate_price_receipt library (receipt_value r) (some profile) ≡ ok r
  unfolding validate_price_receipt receipt_value
  freeze_tariff-validate value profile day r h =
      rw (read_receipt-back library profile r (frozen-IsReceipt value profile day r h)) refl
