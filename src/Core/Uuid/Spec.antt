-- ===== src/Core/Uuid/Spec.antt =====
-- internal/core/uuid.go against the grammar of a UUID.
use oashttp.Prelude.{
  ℕ, ◌+◌, ◌≤◌, true, false, ◌≡◌, refl, sym, ◌↔◌, ◌⊎◌, [], ◌∷◌, map, >>=-eq-ok, ok, length, arith,
}
use oashttp.Prelude.Text.{Text, to_lower}
use oashttp.Core.Uuid.{is_hyphen_place, normalize_byte, normalize_from, normalize_uuid}

-- A hexadecimal digit of either case.
abbrev pub IsHex : ℕ → Type 0
IsHex c = ((b'0' ≤ c) × (c ≤ b'9')) ⊎ (((b'a' ≤ c) × (c ≤ b'f')) ⊎ ((b'A' ≤ c) × (c ≤ b'F')))

-- What may stand at index i.
abbrev pub Fits : ℕ → ℕ → Type 0
Fits i c = ((is_hyphen_place i ≡ true) × (c ≡ b'-')) ⊎ ((is_hyphen_place i ≡ false) × IsHex c)

abbrev pub FitsFrom : ℕ → Text → Type 0
FitsFrom i [] = Unit
FitsFrom i (c ∷ s) = Fits i c × FitsFrom (i + 1) s

-- 36 bytes: hyphens at 8, 13, 18 and 23, and hexadecimal digits elsewhere.
abbrev pub IsUuid : Text → Type 0
IsUuid s = (length s ≡ 36) × FitsFrom 0 s

normalize_byte_sound : (i c d : ℕ) → normalize_byte i c ≡ ok d → Fits i c × (d ≡ to_lower c)
unfolding normalize_byte to_lower
normalize_byte_sound i c d h = ground arith

normalize_byte_complete : (i c : ℕ) → Fits i c → normalize_byte i c ≡ ok (to_lower c)
unfolding normalize_byte to_lower
normalize_byte_complete i c h = ground arith

normalize_from_sound :
    (i : ℕ) (s r : Text) → normalize_from i s ≡ ok r → FitsFrom i s × (r ≡ map to_lower s)
unfolding normalize_from
normalize_from_sound i [] r h = (tt, ground arith)
normalize_from_sound i (c ∷ s) r h =
    let (d, byte, h') = >>=-eq-ok (normalize_byte i c) _ h in
    let (ds, rest, done) = >>=-eq-ok (normalize_from (i + 1) s) _ h' in
    let (fits, lower) = normalize_byte_sound i c d byte in
    let (fits', lower') = normalize_from_sound (i + 1) s ds rest in ((fits, fits'), cc)

normalize_from_complete :
    (i : ℕ) (s : Text) → FitsFrom i s → normalize_from i s ≡ ok (map to_lower s)
unfolding normalize_from
normalize_from_complete i [] h = refl
normalize_from_complete i (c ∷ s) h =
    cc (normalize_byte_complete i c h.0, normalize_from_complete (i + 1) s h.1)

-- NormalizeUUID succeeds exactly on the texts of the UUID grammar, in either case, and what it
-- returns is the text in lower case.
pub normalize_uuid_iff :
    (s r : Text) → (normalize_uuid s ≡ ok r) ↔ (IsUuid s × (r ≡ map to_lower s))
unfolding normalize_uuid
normalize_uuid_iff s r = (
  λ h. (
    (ground arith, (normalize_from_sound 0 s r (ground arith)).0),
    (normalize_from_sound 0 s r (ground arith)).1,
  ),
  λ h. rw h.1 (ground (arith, normalize_from_complete 0 s h.0.1)),
)

Fits-to_lower : (i c : ℕ) → Fits i c → Fits i (to_lower c) × (to_lower (to_lower c) ≡ to_lower c)
unfolding to_lower
Fits-to_lower i c h = ground arith

FitsFrom-to_lower :
    (i : ℕ) (s : Text)
    → FitsFrom i s
    → FitsFrom i (map to_lower s) × (map to_lower (map to_lower s) ≡ map to_lower s)
FitsFrom-to_lower i [] h = (tt, refl)
FitsFrom-to_lower i (c ∷ s) h =
    let (fits, same) = Fits-to_lower i c h.0 in
    let (fits', same') = FitsFrom-to_lower (i + 1) s h.1 in ((fits, fits'), cc)

length-lower : (s : Text) → length (map to_lower s) ≡ length s
length-lower [] = refl
length-lower (c ∷ s) = omega (arith, length-lower s)

-- A normalized UUID is a fixed point: NormalizeUUID returns it as it is.
pub normalize_uuid_idem : (s r : Text) → normalize_uuid s ≡ ok r → normalize_uuid r ≡ ok r
normalize_uuid_idem s r h =
    let (valid, lower) = (normalize_uuid_iff s r).0 h in
    let (fits, same) = FitsFrom-to_lower 0 s valid.1 in
    rw lower (
      (normalize_uuid_iff (map to_lower s) (map to_lower s)).1
        ((omega (arith, length-lower s), fits), sym same))
