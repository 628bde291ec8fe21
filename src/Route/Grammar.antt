-- ===== src/Route/Grammar.antt =====
-- internal/route/parser.go: the grammar of a route.
use oashttp.Prelude.{
  ℕ, ◌||◌, false, ◌≡◌, ◌≢◌, refl, ap, ◌∙◌, inl, inr, List, [], ◌∷◌, ◌++◌, append_assoc, append-nil,
  Option, none, some, Result, ok, err, ◌>>=◌, Result-cases, ◌==◌, arith, Bool-cases,
}
use oashttp.Prelude.Text.{Text, has_byte}
use oashttp.Route.Token.{IsToken, parse_token_iff}
use oashttp.Route.{Parameter, Error, Built, push, parse_token, scan}

-- `Reads seen s out ps`: with the parameters `seen` before it, the path `s` is a row of plain bytes
-- and of tokens in braces; `out` is the row with each token cut down to its name, and `ps` are the
-- parameters of the tokens, each with a name that none before it has.
pub data Reads : List Parameter → Text → Text → List Parameter → Type 0 where
  stop : {seen : List Parameter} → Reads seen [] [] []
  plain :
      {seen : List Parameter} {s out : Text} {ps : List Parameter} (c : ℕ)
      → c ≢ b'{'
      → c ≢ b'}'
      → Reads seen s out ps
      → Reads seen (c ∷ s) (c ∷ out) ps
  token :
      {seen : List Parameter} {s out : Text} {ps : List Parameter} (t : Text) (p : Parameter)
      → has_byte b'}' t ≡ false
      → IsToken seen t p
      → Reads (seen ++ p ∷ []) s out ps
      → Reads seen (b'{' ∷ (t ++ b'}' ∷ s)) (b'{' ∷ (p.name ++ b'}' ∷ out)) (p ∷ ps)

has_byte-append : (b : ℕ) (s t : Text) → has_byte b (s ++ t) ≡ (has_byte b s || has_byte b t)
unfolding has_byte
has_byte-append b [] t = refl
has_byte-append b (c ∷ s) t = ground (arith, has_byte-append b s t)

scan_plain :
    (seen : List Parameter) (c : ℕ) (s out : Text) (ps : List Parameter)
    → c ≢ b'{'
    → c ≢ b'}'
    → scan seen none s ≡ ok (out, ps)
    → scan seen none (c ∷ s) ≡ ok (c ∷ out, ps)
unfolding scan
scan_plain seen c s out ps h h' e = ground arith

scan_closed :
    (seen : List Parameter) (t : Text) (p : Parameter) (s out : Text) (ps : List Parameter)
    → parse_token seen t ≡ ok p
    → scan (seen ++ p ∷ []) none s ≡ ok (out, ps)
    → scan seen (some t) (b'}' ∷ s) ≡ ok (b'{' ∷ (p.name ++ b'}' ∷ out), p ∷ ps)
unfolding scan
scan_closed seen t p s out ps h e =
    rw (h, e) (ap (λ l. ok (b'{' ∷ l, p ∷ ps)) (append_assoc p.name (b'}' ∷ []) out))

scan_longer :
    (seen : List Parameter) (t : Text) (c : ℕ) (s : Text)
    → c ≢ b'}'
    → scan seen (some t) (c ∷ s) ≡ scan seen (some (t ++ c ∷ [])) s
unfolding scan
scan_longer seen t c s h = ground arith

scan_opened : (seen : List Parameter) (s : Text) → scan seen none (b'{' ∷ s) ≡ scan seen (some []) s
unfolding scan
scan_opened seen s = refl

ne_of_has_byte :
    (c : ℕ) (t : Text) → has_byte b'}' (c ∷ t) ≡ false → (c ≢ b'}') × (has_byte b'}' t ≡ false)
unfolding has_byte
ne_of_has_byte c t h = (λ e. ground arith, ground arith)

scan_token :
    (seen : List Parameter) (done t : Text) (s : Text)
    → has_byte b'}' t ≡ false
    → scan seen (some done) (t ++ b'}' ∷ s) ≡ scan seen (some (done ++ t)) (b'}' ∷ s)
scan_token seen done [] s h = rw append-nil
scan_token seen done (c ∷ t) s h =
    let (ne, h') = ne_of_has_byte c t h in
    scan_longer seen done c (t ++ b'}' ∷ s) ne
    ∙ scan_token seen (done ++ c ∷ []) t s h'
    ∙ ap (λ l. scan seen (some l) (b'}' ∷ s)) (append_assoc done (c ∷ []) t)

-- The loop accepts what the grammar describes, with the grammar's result.
pub scan_complete :
    {seen : List Parameter} {s out : Text} {ps : List Parameter}
    → Reads seen s out ps
    → scan seen none s ≡ ok (out, ps)
scan_complete stop = unfold scan in refl
scan_complete (plain c h h' r) = scan_plain _ c _ _ _ h h' (scan_complete r)
scan_complete (token t p h e r) =
    scan_opened _ _
    ∙ scan_token _ [] t _ h
    ∙ scan_closed _ t p _ _ _ ((parse_token_iff _ t p).1 e) (scan_complete r)

-- What a step of the loop that succeeds has found.
scan_plain_step :
    (seen : List Parameter) (c : ℕ) (s : Text)
    → c ≢ b'{'
    → c ≢ b'}'
    → scan seen none (c ∷ s) ≡ (scan seen none s >>= λ b. ok (push (c ∷ []) [] b))
unfolding scan
scan_plain_step seen c s h h' = ground arith

push_inv :
    (c : ℕ) (r : Result Error Built) (out : Text) (ps : List Parameter)
    → (r >>= λ b. ok (push (c ∷ []) [] b)) ≡ ok (out, ps)
    → (out' : Text) × (r ≡ ok (out', ps)) × (out ≡ c ∷ out')
push_inv c (ok (rest, more)) out ps e = (rest, ground arith, ground arith)
push_inv c (err x) out ps e = cc

scan_plain_inv :
    (seen : List Parameter) (c : ℕ) (s out : Text) (ps : List Parameter)
    → c ≢ b'{'
    → c ≢ b'}'
    → scan seen none (c ∷ s) ≡ ok (out, ps)
    → (out' : Text) × (scan seen none s ≡ ok (out', ps)) × (out ≡ c ∷ out')
scan_plain_inv seen c s out ps h h' e =
    push_inv c (scan seen none s) out ps (rw (scan_plain_step seen c s h h') at e)

scan_closed_inv :
    (seen : List Parameter) (t s out : Text) (ps : List Parameter)
    → scan seen (some t) (b'}' ∷ s) ≡ ok (out, ps)
    → (p : Parameter) × (out' : Text) × (ps' : List Parameter) × (parse_token seen t ≡ ok p)
      × (scan (seen ++ p ∷ []) none s ≡ ok (out', ps'))
      × (out ≡ b'{' ∷ (p.name ++ b'}' ∷ out'))
      × (ps ≡ p ∷ ps')
unfolding scan
scan_closed_inv seen t s out ps e = elim (Result-cases (parse_token seen t)) [
  | inl (p, accepted) ↦ elim (Result-cases (scan (seen ++ p ∷ []) none s)) [
    | inl ((rest, more), found) ↦ (
      p,
      rest,
      more,
      accepted,
      found,
      ground (arith, append_assoc p.name (b'}' ∷ []) rest),
      ground arith,
    )
    | inr (x, found) ↦ absurd (ground arith)
  ]
  | inr (x, refused) ↦ absurd (ground arith)
]

scan_not_close : (seen : List Parameter) (s : Text) (b : Built) → scan seen none (b'}' ∷ s) ≢ ok b
unfolding scan
scan_not_close seen s b e = cc

scan_not_open : (seen : List Parameter) (t : Text) (b : Built) → scan seen (some t) [] ≢ ok b
unfolding scan
scan_not_open seen t b e = cc

-- The path from the brace on, where a token is being read.
abbrev Whole : Option Text → Text → Text
Whole none s = s
Whole (some done) s = b'{' ∷ (done ++ s)

abbrev IsOpen : Option Text → Type 0
IsOpen none = Unit
IsOpen (some done) = has_byte b'}' done ≡ false

open_longer :
    (done : Text) (c : ℕ)
    → has_byte b'}' done ≡ false
    → c ≢ b'}'
    → has_byte b'}' (done ++ c ∷ []) ≡ false
unfolding has_byte
open_longer done c o ne = ground (arith, has_byte-append b'}' done (c ∷ []))

scan_nil_inv :
    (seen : List Parameter) (out : Text) (ps : List Parameter)
    → scan seen none [] ≡ ok (out, ps)
    → Reads seen [] out ps
unfolding scan
scan_nil_inv seen out ps h =
    let e : out ≡ [] = ground arith in let e' : ps ≡ [] = ground arith in rw (e, e') stop

nothing_passed : has_byte b'}' [] ≡ false
unfolding has_byte
nothing_passed = refl

scan_sound_from :
    (seen : List Parameter) (mode : Option Text) (s out : Text) (ps : List Parameter)
    → IsOpen mode
    → scan seen mode s ≡ ok (out, ps)
    → Reads seen (Whole mode s) out ps
scan_sound_from seen none [] out ps o h = scan_nil_inv seen out ps h
scan_sound_from seen none (c ∷ s) out ps o h = elim (Bool-cases (c == b'{')) [
  | inl open_brace ↦
      let same : c ≡ b'{' = ground arith in
      rw same (scan_sound_from seen (some []) s out ps nothing_passed (rw (same, scan_opened) at h))
  | inr other ↦ elim (Bool-cases (c == b'}')) [
    | inl close_brace ↦
        let same : c ≡ b'}' = ground arith in absurd (scan_not_close seen s _ (rw same at h))
    | inr ordinary ↦
        let (out', rest, shape) =
          scan_plain_inv seen c s out ps (λ e. ground arith) (λ e. ground arith) h in
        rw shape (
          plain c (λ e. ground arith) (λ e. ground arith)
            (scan_sound_from seen none s out' ps tt rest))
  ]
]
scan_sound_from seen (some done) [] out ps o h = absurd (scan_not_open seen done _ h)
scan_sound_from seen (some done) (c ∷ s) out ps o h = elim (Bool-cases (c == b'}')) [
  | inl close_brace ↦
      let same : c ≡ b'}' = ground arith in
      let (p, out', ps', accepted, rest, shape, params) =
        scan_closed_inv seen done s out ps (rw same at h) in
      rw (same, shape, params)
        (token done p o ((parse_token_iff seen done p).0 accepted)
          (scan_sound_from (seen ++ p ∷ []) none s out' ps' tt rest))
  | inr inside ↦
      let ne : c ≢ b'}' = (λ e. ground arith) in
      rw (← append_assoc done (c ∷ []) s) (
        scan_sound_from seen (some (done ++ c ∷ [])) s out ps (open_longer done c o ne)
          (rw (scan_longer seen done c s ne) at h))
]

-- The loop accepts nothing else.
pub scan_sound :
    (seen : List Parameter) (s out : Text) (ps : List Parameter)
    → scan seen none s ≡ ok (out, ps)
    → Reads seen s out ps
scan_sound seen s out ps h = scan_sound_from seen none s out ps tt h
