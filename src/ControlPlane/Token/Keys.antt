-- ===== src/ControlPlane/Token/Keys.antt =====
-- The keyset that `parseKeyset` of token.ts reads.
use serverless_harness.Base.{
  ◌≡◌, refl, sym, ap, ◌∙◌, subst, inl, inr, Option, none, some, List, [], ◌∷◌, ◌==◌, Text, get, set,
  get-set, codes, split_on, strip, cut_at, All, good, text_key, >>=-good, require-good, Bool-cases,
  arith, some_inj, good_inj,
}
use mathlib.Core.Path.{subst₂}
use serverless_harness.ControlPlane.Errors.{Thrown}
use serverless_harness.ControlPlane.Token.{
  Jose, Keyset, key_id_for, ed25519, require_ed25519, public_key_from_base64, entry_parts,
  keyset_entry, keyset_step, keyset_entries, parse_keyset,
}

module _ (jose : Jose) where
  -- An Ed25519 key under its own id.
  abbrev pub IsOwn : Text → jose.Key → Type 0
  IsOwn kid key =
      (codes (key_id_for jose key) ≡ kid) × (jose.asymmetric_key_type key ≡ some ed25519)

  abbrev pub IsKeyset : Keyset jose → Type 0
  IsKeyset keys = (kid : Text) (key : jose.Key) → get kid keys ≡ some key → IsOwn kid key

  require_ed25519-good :
      (key : jose.Key) (kind : Option Text) (got : jose.Key)
      → require_ed25519 jose key kind ≡ good got
      → (key ≡ got) × (kind ≡ some ed25519)
  require_ed25519-good key none got h = cc
  require_ed25519-good key (some kind) got h =
      ground (arith, text_key.same_iff kind ed25519, Bool-cases (kind == ed25519))

  public_key_from_base64-good :
      (b64 : Text) (key : jose.Key)
      → public_key_from_base64 jose b64 ≡ good key
      → jose.asymmetric_key_type key ≡ some ed25519
  public_key_from_base64-good b64 key h =
      let (read, r, h1) = >>=-good _ _ key h in
      let (same, kind) = require_ed25519-good read (jose.asymmetric_key_type read) key h1 in
      ap jose.asymmetric_key_type (sym same) ∙ kind

  -- What one entry adds.
  keyset_entry-good :
      (entry : Text) (keys more : Keyset jose)
      → keyset_entry jose entry keys ≡ good more
      → (kid : Text) × (key : jose.Key) × (set kid key keys ≡ more) × IsOwn kid key
  unfolding keyset_entry
  keyset_entry-good entry keys more h =
      let (parts, p, h1) = >>=-good _ _ more h in
      let (key, k, h2) = >>=-good _ _ more h1 in
      let (_, own, h3) = >>=-good _ _ more h2 in
      (
        parts.0,
        key,
        cc,
        (
          (text_key.same_iff (codes (key_id_for jose key)) parts.0).0 (require-good _ _ _ own),
          public_key_from_base64-good parts.1 key k,
        ),
      )

  set-IsKeyset :
      (kid : Text) (key : jose.Key) (keys : Keyset jose)
      → IsOwn kid key
      → IsKeyset keys
      → IsKeyset (set kid key keys)
  set-IsKeyset kid key keys own all other k h = elim (Bool-cases (kid == other)) [
    | inl same ↦
        let here = some_inj key k (sym (get-set kid other key keys ∙ rw same refl) ∙ h) in
        subst₂ IsOwn ((text_key.same_iff kid other).0 same) here own
    | inr new ↦ all other k (sym (get-set kid other key keys ∙ rw new refl) ∙ h)
  ]

  keyset_step-IsKeyset :
      (entry : Text) (keys more : Keyset jose)
      → keyset_step jose entry keys ≡ good more
      → IsKeyset keys
      → IsKeyset more
  keyset_step-IsKeyset [] keys more h all = subst IsKeyset (good_inj Thrown keys more h) all
  keyset_step-IsKeyset (c ∷ entry) keys more h all =
      let (kid, key, added, own) = keyset_entry-good (c ∷ entry) keys more h in
      subst IsKeyset added (set-IsKeyset kid key keys own all)

  keyset_entries-IsKeyset :
      (entries : List Text) (keys more : Keyset jose)
      → keyset_entries jose entries keys ≡ good more
      → IsKeyset keys
      → IsKeyset more
  unfolding keyset_entries
  keyset_entries-IsKeyset [] keys more h all = subst IsKeyset (good_inj Thrown keys more h) all
  keyset_entries-IsKeyset (entry ∷ entries) keys more h all =
      let (next, first, rest) = >>=-good _ _ more h in
      keyset_entries-IsKeyset entries next more rest
        (keyset_step-IsKeyset (strip entry) keys next first all)

  -- In a keyset that was read, every key stands under the id that its own bytes give, and is an Ed25519 key.
  pub parse_keyset-IsKeyset :
      (raw : Option Text) (keys : Keyset jose) → parse_keyset jose raw ≡ good keys → IsKeyset keys
  unfolding parse_keyset
  parse_keyset-IsKeyset none keys h =
      keyset_entries-IsKeyset (split_on b',' []) [] keys h λ kid key found. cc
  parse_keyset-IsKeyset (some raw) keys h =
      keyset_entries-IsKeyset (split_on b',' raw) [] keys h λ kid key found. cc

  abbrev pub Has : Text → Keyset jose → Type 0
  Has kid keys = (key : jose.Key) × (get kid keys ≡ some key)

  set-Has :
      (kid other : Text) (key : jose.Key) (keys : Keyset jose)
      → Has other keys
      → Has other (set kid key keys)
  set-Has kid other key keys (old, there) = elim (Bool-cases (kid == other)) [
    | inl same ↦ (key, get-set kid other key keys ∙ rw same refl)
    | inr new ↦ (old, get-set kid other key keys ∙ rw new there)
  ]

  set-Has-own : (kid : Text) (key : jose.Key) (keys : Keyset jose) → Has kid (set kid key keys)
  set-Has-own kid key keys =
      (key, get-set kid kid key keys ∙ rw ((text_key.same_iff kid kid).1 refl) refl)

  -- Keys that are there stay there, under their ids.
  keyset_step-Has :
      (entry : Text) (keys more : Keyset jose)
      → keyset_step jose entry keys ≡ good more
      → (kid : Text) → Has kid keys
      → Has kid more
  keyset_step-Has [] keys more h kid there = subst (Has kid) (good_inj Thrown keys more h) there
  keyset_step-Has (c ∷ entry) keys more h kid there =
      let (new, key, added, own) = keyset_entry-good (c ∷ entry) keys more h in
      subst (Has kid) added (set-Has new kid key keys there)

  keyset_entries-Has :
      (entries : List Text) (keys more : Keyset jose)
      → keyset_entries jose entries keys ≡ good more
      → (kid : Text) → Has kid keys
      → Has kid more
  unfolding keyset_entries
  keyset_entries-Has [] keys more h kid there = subst (Has kid) (good_inj Thrown keys more h) there
  keyset_entries-Has (entry ∷ entries) keys more h kid there =
      let (next, first, rest) = >>=-good _ _ more h in
      keyset_entries-Has entries next more rest kid
        (keyset_step-Has (strip entry) keys next first kid there)

  -- What a text that is not blank adds to the set.
  abbrev pub IsRead : Text → Keyset jose → Type 0
  IsRead [] keys = Unit {0}
  IsRead (c ∷ entry) keys =
      (parts : Text × Text) × (entry_parts jose (cut_at b':' (c ∷ entry)) ≡ good parts)
      × Has parts.0 keys

  keyset_entry-IsRead :
      (entry : Text) (keys next : Keyset jose)
      → keyset_step jose entry keys ≡ good next
      → (more : Keyset jose) → ((kid : Text) → Has kid next → Has kid more)
      → IsRead entry more
  unfolding keyset_entry
  keyset_entry-IsRead [] keys next h more later = tt
  keyset_entry-IsRead (c ∷ entry) keys next h more later =
      let (parts, p, h1) = >>=-good _ _ next h in
      let (key, k, h2) = >>=-good _ _ next h1 in
      let (_, own, h3) = >>=-good _ _ next h2 in
      let has : Has parts.0 next =
        subst (Has parts.0) (good_inj Thrown _ next h3) (set-Has-own parts.0 key keys) in
      (parts, p, later parts.0 has)

  keyset_entries-IsRead :
      (entries : List Text) (keys more : Keyset jose)
      → keyset_entries jose entries keys ≡ good more
      → All (λ entry. IsRead (strip entry) more) entries
  unfolding keyset_entries
  keyset_entries-IsRead [] keys more h = tt
  keyset_entries-IsRead (entry ∷ entries) keys more h =
      let (next, first, rest) = >>=-good _ _ more h in
      (
        keyset_entry-IsRead (strip entry) keys next first more
            (keyset_entries-Has entries next more rest),
        keyset_entries-IsRead entries next more rest,
      )

  -- No entry is skipped: where a keyset is read, each entry that is not blank is `<kid>:<key>`, and the set
  -- has a key under its kid.
  pub parse_keyset-All-IsRead :
      (raw : Text) (keys : Keyset jose)
      → parse_keyset jose (some raw) ≡ good keys
      → All (λ entry. IsRead (strip entry) keys) (split_on b',' raw)
  unfolding parse_keyset
  parse_keyset-All-IsRead raw keys h = keyset_entries-IsRead (split_on b',' raw) [] keys h
