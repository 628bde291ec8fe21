-- ===== src/Recovery/Once.antt =====
-- recovery.go: at most one response goes out.
use oashttp.Prelude.{
  ℕ, ◌+◌, ◌≤◌, Bool, true, false, ◌≡◌, refl, ap, ◌∙◌, inl, inr, Option, none, some, List, [], ◌∷◌,
  ◌++◌, arith, if◌then◌else◌, Bool-cases,
}
use oashttp.Prelude.Text.{Text}
use oashttp.Http.Writer.{
  Call, send_header, send, flushed, hijacked, Writer, Guard, push, is_informational, set_header,
  add_header, write_header, ensure_header, write, flush, hijack,
}
use oashttp.Http.Writer.Open.{body_calls, final-status}
use oashttp.Failure.Types.{Codec, Formatter}
use oashttp.Failure.Write.{World, on_writer, recovered}
use oashttp.Failure.Committed.{IsResponse, report-writer}
use oashttp.Recovery.Panic.{recover_returned, recover-written, recover-unwritten}
use oashttp.Recovery.{
  Action, sets, adds, writes_header, writes, flushes, hijacks, Ending, returned, panicked,
  Capability, capability_writer, can_flush, can_hijack, act, run, guarded, has_written, recover,
  recover_panics,
}

-- The headers that are a response: all but 1xx other than 101.
abbrev pub finals : List Call → ℕ
finals [] = 0
finals (send_header status h ∷ calls) = (if is_informational status then 0 else 1) + finals calls
finals (send payload ∷ calls) = finals calls
finals (flushed ∷ calls) = finals calls
finals (hijacked ∷ calls) = finals calls

pub finals-append : (xs ys : List Call) → finals (xs ++ ys) ≡ finals xs + finals ys
finals-append [] ys = omega arith
finals-append (send_header status h ∷ xs) ys = omega (arith, finals-append xs ys)
finals-append (send payload ∷ xs) ys = finals-append xs ys
finals-append (flushed ∷ xs) ys = finals-append xs ys
finals-append (hijacked ∷ xs) ys = finals-append xs ys

abbrev pub is_guarded : Option Guard → Bool
is_guarded none = false
is_guarded (some g) = true

-- While no header is counted none went out; then at most one did.
pub record IsOnce (before : ℕ) (w : Writer) : Type 0 where
  pub guarded : is_guarded w.guard ≡ true
  pub most : finals w.calls ≤ before + 1
  pub unwritten : has_written w.guard ≡ false → finals w.calls ≡ before

module _ (before : ℕ) (w : Writer) (h : IsOnce before w) where
  write_header-IsOnce : (status : ℕ) → IsOnce before (write_header status w)
  unfolding write_header
  write_header-IsOnce status = record {
    guarded = ground (arith, h.guarded);
    most = ground (
      arith,
      h.guarded,
      h.most,
      h.unwritten,
      finals-append w.calls (send_header status w.header ∷ []),
    );
    unwritten =
        ground
          (arith, h.guarded, h.unwritten, finals-append w.calls (send_header status w.header ∷ []));
  }

  ensure_header-IsOnce : IsOnce before (ensure_header w)
  unfolding ensure_header
  ensure_header-IsOnce = record {
    guarded = ground (arith, h.guarded);
    most = ground (
      arith,
      h.guarded,
      h.most,
      h.unwritten,
      finals-append w.calls (send_header 200 w.header ∷ []),
    );
    unwritten =
        ground
          (arith, h.guarded, h.unwritten, finals-append w.calls (send_header 200 w.header ∷ []));
  }

  push-IsOnce : (c : Call) → finals (c ∷ []) ≡ 0 → IsOnce before (push w c)
  push-IsOnce c e = record {
    guarded = h.guarded;
    most = omega (arith, finals-append w.calls (c ∷ []), h.most);
    unwritten = λ u. omega (arith, finals-append w.calls (c ∷ []), h.unwritten u);
  }

  hijack-IsOnce : (succeeds : Bool) → IsOnce before (hijack succeeds w)
  unfolding hijack
  hijack-IsOnce succeeds = record {
    guarded = ground (arith, h.guarded);
    most = ground (arith, h.guarded, h.most, finals-append w.calls (hijacked ∷ []));
    unwritten = ground (arith, h.guarded, h.unwritten, finals-append w.calls (hijacked ∷ []));
  }

act-IsOnce :
    (before : ℕ) (c : Capability) (a : Action) (w : Writer)
    → IsOnce before w
    → IsOnce before (act c a w)
unfolding act set_header add_header write flush
act-IsOnce before c (sets key v) w h = record {
  guarded = h.guarded;
  most = h.most;
  unwritten = h.unwritten;
}
act-IsOnce before c (adds key v) w h = record {
  guarded = h.guarded;
  most = h.most;
  unwritten = h.unwritten;
}
act-IsOnce before c (writes_header status) w h = write_header-IsOnce before w h status
act-IsOnce before c (writes payload) w h =
    push-IsOnce before (ensure_header w) (ensure_header-IsOnce before w h) (send payload) refl
act-IsOnce before c flushes w h = elim (Bool-cases (can_flush c)) [
  | inl able ↦
      rw able (push-IsOnce before (ensure_header w) (ensure_header-IsOnce before w h) flushed refl)
  | inr unable ↦ rw unable h
]
act-IsOnce before c (hijacks succeeds) w h = elim (Bool-cases (can_hijack c)) [
  | inl able ↦ rw able (hijack-IsOnce before w h succeeds)
  | inr unable ↦ rw unable h
]

pub run-IsOnce :
    (before : ℕ) (c : Capability) (actions : List Action) (w : Writer)
    → IsOnce before w
    → IsOnce before (run c actions w)
unfolding run
run-IsOnce before c [] w h = h
run-IsOnce before c (a ∷ actions) w h =
    run-IsOnce before c actions (act c a w) (act-IsOnce before c a w h)

pub guarded-IsOnce : (w : World) → IsOnce (finals w.writer.calls) (guarded w).writer
guarded-IsOnce w = record { guarded = refl; most = omega arith; unwritten = λ u. refl }

pub body_calls-finals : (payload : Text) → finals (body_calls payload) ≡ 0
body_calls-finals [] = refl
body_calls-finals (c ∷ payload) = refl

response-finals :
    (status : ℕ) (content_type payload : Text) (w w' : Writer)
    → 200 ≤ status
    → IsResponse status content_type payload w w'
    → finals w'.calls ≡ finals w.calls + 1
response-finals status content_type payload w w' low r =
    ap finals r.calls
    ∙ finals-append w.calls _
    ∙ ap (λ n. finals w.calls + n) (rw (final-status status low, body_calls-finals payload))

module _ {V : Type 0} (codec : Codec V) (formatter : Option (Formatter V))
    (failure_type : Text) where
  panicked-most :
      (before : ℕ) (u : World)
      → IsOnce before u.writer
      → finals (recover codec formatter failure_type panicked u).writer.calls ≤ before + 1
  panicked-most before u h = elim (Bool-cases (has_written u.writer.guard)) [
    | inl written ↦
        rw (recover-written codec formatter failure_type u written, report-writer recovered u)
          h.most
    | inr unwritten ↦
        let (media, payload, r) = recover-unwritten codec formatter failure_type u unwritten in
        omega (arith, response-finals 500 media payload _ _ (omega arith) r, h.unwritten unwritten)
  ]

  -- Whatever the handler calls, in whatever order, and whether or not it panics, at most one
  -- response header reaches the underlying writer; 1xx other than 101 are not counted.
  pub recover_panics_once :
      (has_flusher has_hijacker : Bool) (actions : List Action) (ending : Ending) (w : World)
      → finals
          (recover_panics codec formatter failure_type has_flusher has_hijacker actions ending
            w).writer.calls
        ≤ finals w.writer.calls + 1
  unfolding recover_panics
  recover_panics_once has_flusher has_hijacker actions returned w =
      rw (recover_returned codec formatter failure_type _)
        (run-IsOnce _ _ actions _ (guarded-IsOnce w)).most
  recover_panics_once has_flusher has_hijacker actions panicked w =
      let u = on_writer (run (capability_writer has_flusher has_hijacker) actions) (guarded w) in
      panicked-most _ u (run-IsOnce _ _ actions _ (guarded-IsOnce w))
