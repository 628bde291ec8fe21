-- ===== src/Binding/Bounded.antt =====
-- internal/binding/body.go: the limit of a body.
use oashttp.Prelude.{
  Bool, Bool-cases, [], arith, false, if◌then◌else◌, inl, inr, length, length-take_long, ltb, none,
  refl, some, sym, take, take-all, true, ℕ, ◌+◌, ◌-◌, ◌<◌, ◌↔◌, ◌∙◌, ◌≡◌, ◌≤◌, ◌⊎◌,
}
use oashttp.Prelude.Text.{Text, lit, trim_space}
use Prim.Native.Nat.{◌^◌}
use oashttp.Reflect.GoType.{ReflectType}
use oashttp.Reflect.Integer.{Integer, negative, positive}
use oashttp.Reflect.Value.{Value}
use oashttp.Http.Request.{Request, RequestStream}
use oashttp.Binding.Scalar.{Conversions}
use oashttp.Binding.Body.{
  decode_body, decode_data, exceeds, invalid, no_body, read_body, read_limit, refused, too_large,
}
use mathlib.Core.Bool.{false≢true}

-- A Content-Length that is known and above the limit.
abbrev pub IsAnnounced : ℕ → Integer → Type 0
IsAnnounced limit c = (n : ℕ) × (c ≡ positive n) × (limit < n)

exceeds_iff : (c : Integer) (limit : ℕ) → (exceeds c limit ≡ true) ↔ IsAnnounced limit c
unfolding exceeds
exceeds_iff (negative m) limit = (λ e. cc, λ (n, is, above). cc)
exceeds_iff (positive m) limit = (λ e. (m, refl, ground arith), λ (n, is, above). ground arith)

module _ {F O : Type 0} (lib : Conversions F O) (r : Request) (t : ReflectType) (old : Value F O)
    (disallow required : Bool) (stream : RequestStream) (sent : r.body ≡ some stream) where
  read_limit-small : (limit : ℕ) → limit + 1 < 2 ^ 63 → read_limit limit ≡ limit + 1
  unfolding read_limit
  read_limit-small limit small = ground arith

  read_body-long :
      (limit : ℕ)
      → limit < length stream.bytes
      → read_body stream (limit + 1) ≡ some (take (limit + 1) stream.bytes)
  unfolding read_body
  read_body-long limit long = ground arith

  read_body-short :
      (limit : ℕ)
      → length stream.bytes ≤ limit
      → read_body stream (limit + 1) ≡ (if stream.broken then none else some stream.bytes)
  unfolding read_body
  read_body-short limit short = ground (arith, take-all (limit + 1) stream.bytes (omega arith))

  decode_data-long :
      (limit : ℕ) (read : Text)
      → length read ≡ limit + 1
      → decode_data lib r t old limit disallow required read
        ≡ (old, some (refused (too_large limit)))
  unfolding decode_data
  decode_data-long limit read e = ground arith

  decode_body-announced :
      (limit : ℕ)
      → exceeds r.content_length limit ≡ true
      → decode_body lib r t old limit disallow required ≡ (old, some (refused (too_large limit)))
  unfolding decode_body
  decode_body-announced limit says = rw (sent, says, decode_body) refl

  module _ (limit : ℕ) (small : limit + 1 < 2 ^ 63)
      (fits : exceeds r.content_length limit ≡ false) where
    decode_body-long :
        limit < length stream.bytes
        → decode_body lib r t old limit disallow required ≡ (old, some (refused (too_large limit)))
    unfolding decode_body
    decode_body-long long =
        rw (sent, fits, read_limit-small limit small, read_body-long limit long, decode_body)
          (decode_data-long limit _
            (length-take_long (limit + 1) stream.bytes (omega (arith, long))))

    decode_body-whole :
        length stream.bytes ≤ limit
        → stream.broken ≡ false
        → decode_body lib r t old limit disallow required
          ≡ decode_data lib r t old limit disallow required stream.bytes
    unfolding decode_body
    decode_body-whole short whole =
        rw
          (
            sent,
            fits,
            read_limit-small limit small,
            read_body-short limit short,
            whole,
            decode_body,
          )
          refl

    decode_body-fails :
        length stream.bytes ≤ limit
        → stream.broken ≡ true
        → decode_body lib r t old limit disallow required
          ≡ (old, some (invalid (lit "read JSON body: ")))
    unfolding decode_body
    decode_body-fails short fails =
        rw
          (
            sent,
            fits,
            read_limit-small limit small,
            read_body-short limit short,
            fails,
            decode_body,
          )
          refl

  -- A body of more bytes than the limit, or whose Content-Length is above it, is refused with 413
  -- and sets nothing. Of any other body the whole is decoded, or, if reading it fails, that is the
  -- error. The limit is below the greatest int64.
  pub decode_body-cases :
      (limit : ℕ)
      → limit + 1 < 2 ^ 63
      → let out = decode_body lib r t old limit disallow required in
        ((IsAnnounced limit r.content_length ⊎ (limit < length stream.bytes))
          × (out ≡ (old, some (refused (too_large limit)))))
        ⊎ (((¬ IsAnnounced limit r.content_length)
              × (length stream.bytes ≤ limit)
              × (stream.broken ≡ false)
              × (out ≡ decode_data lib r t old limit disallow required stream.bytes))
            ⊎ ((¬ IsAnnounced limit r.content_length)
                × (length stream.bytes ≤ limit)
                × (stream.broken ≡ true)
                × (out ≡ (old, some (invalid (lit "read JSON body: "))))))
  decode_body-cases limit small = elim (Bool-cases (exceeds r.content_length limit)) [
    | inl says ↦
        inl (inl ((exceeds_iff r.content_length limit).0 says), decode_body-announced limit says)
    | inr fits ↦
        let silent : ¬ IsAnnounced limit r.content_length =
          λ a. false≢true (sym fits ∙ (exceeds_iff r.content_length limit).1 a) in
        elim (Bool-cases (ltb limit (length stream.bytes))) [
          | inl long ↦ inl (inr (ground arith), decode_body-long limit small fits (ground arith))
          | inr short ↦
              let fitting : length stream.bytes ≤ limit = ground arith in
              elim (Bool-cases stream.broken) [
                | inr whole ↦
                    inr (
                      inl
                        (silent, fitting, whole, decode_body-whole limit small fits fitting whole))
                | inl fails ↦
                    inr (
                      inr
                        (silent, fitting, fails, decode_body-fails limit small fits fitting fails))
              ]
        ]
  ]

  read_body-zero : (n : ℕ) → n ≡ 0 → read_body stream n ≡ some []
  unfolding read_body
  read_body-zero n e = ground arith

  read_limit-max : read_limit (2 ^ 63 - 1) ≡ 0
  unfolding read_limit
  read_limit-max = refl

  decode_data-empty :
      decode_data lib r t old (2 ^ 63 - 1) disallow required [] ≡ (old, no_body lib required)
  unfolding decode_data trim_space
  decode_data-empty = refl

  -- With the greatest int64 as the limit, the limit of the reader overflows: every body that says it
  -- is no longer is taken for an empty one.
  pub decode_body-unread :
      exceeds r.content_length (2 ^ 63 - 1) ≡ false
      → decode_body lib r t old (2 ^ 63 - 1) disallow required ≡ (old, no_body lib required)
  unfolding decode_body
  decode_body-unread fits =
      rw (sent, fits, read_body-zero _ read_limit-max, decode_body) decode_data-empty
