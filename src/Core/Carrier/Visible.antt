-- ===== src/Core/Carrier/Visible.antt =====
-- internal/core/operation.go: who sees what the router and the authentication record.
use oashttp.Prelude.{
  ℕ, zero, suc, true, ◌≡◌, ◌≢◌, refl, ap, sym, ◌∙◌, Option, none, some, [], ◌∷◌, ◌++◌, length,
}
use oashttp.Core.Carrier.{
  OperationInfo, Principal, Carrier, Heap, Context, blank, deref, update, with_operation_carrier,
  with_operation_info, with_principal, operation_from_context, principal_from_context,
  read_operation, read_principal,
}

deref-update_self :
    (h : Heap) (p : ℕ) (f : Carrier → Carrier) (c : Carrier)
    → deref h p ≡ some c
    → deref (update h p f) p ≡ some (f c)
unfolding deref update
deref-update_self [] p f c e = cc
deref-update_self (x ∷ h) zero f c e = cc
deref-update_self (x ∷ h) (suc p) f c e = deref-update_self h p f c e

deref-update_ne :
    (h : Heap) (p q : ℕ) (f : Carrier → Carrier) → p ≢ q → deref (update h p f) q ≡ deref h q
unfolding deref update
deref-update_ne [] p q f ne = refl
deref-update_ne (x ∷ h) zero zero f ne = absurd (ne refl)
deref-update_ne (x ∷ h) zero (suc q) f ne = refl
deref-update_ne (x ∷ h) (suc p) zero f ne = refl
deref-update_ne (x ∷ h) (suc p) (suc q) f ne = deref-update_ne h p q f (λ e. ne (ap suc e))

deref-append_last : (h : Heap) (c : Carrier) → deref (h ++ c ∷ []) (length h) ≡ some c
unfolding deref
deref-append_last [] c = refl
deref-append_last (x ∷ h) c = deref-append_last h c

deref-append_old :
    (h : Heap) (c d : Carrier) (p : ℕ) → deref h p ≡ some d → deref (h ++ c ∷ []) p ≡ some d
unfolding deref
deref-append_old [] c d p e = cc
deref-append_old (x ∷ h) c d zero e = e
deref-append_old (x ∷ h) c d (suc p) e = deref-append_old h c d p e

-- The context points at a carrier that was allocated.
abbrev pub IsLive : Heap → Context → Type 0
IsLive h none = Unit
IsLive h (some p) = (c : Carrier) × (deref h p ≡ some c)

abbrev set_info : OperationInfo → Carrier → Carrier
set_info info c = record c { info = info; operation_ok = true }

abbrev set_principal : Principal → Carrier → Carrier
set_principal who c = record c { principal = some who }

recorded :
    (h : Heap) (p : ℕ) (info : OperationInfo) (who : Principal) (c : Carrier)
    → deref h p ≡ some c
    → deref (update (update h p (set_info info)) p (set_principal who)) p
      ≡ some (set_principal who (set_info info c))
recorded h p info who c e =
    deref-update_self (update h p (set_info info)) p (set_principal who) (set_info info c)
      (deref-update_self h p (set_info info) c e)

recorded-operation :
    (h : Heap) (p : ℕ) (info : OperationInfo) (who : Principal) (c : Carrier)
    → deref h p ≡ some c
    → (operation_from_context (some p) (update (update h p (set_info info)) p (set_principal who))
        ≡ (info, true))
      × (principal_from_context (some p) (update (update h p (set_info info)) p (set_principal who))
          ≡ (some who, true))
unfolding operation_from_context principal_from_context
recorded-operation h p info who c e =
    (ap read_operation (recorded h p info who c e), ap read_principal (recorded h p info who c e))

-- Once the outer middleware has a carrier, what the router and the authentication record through
-- the same context later is what the outer middleware reads: the context is not replaced, the
-- operation and the principal are both there, and neither write loses the other.
pub recorded_is_visible :
    (outer : Context) (h : Heap) (info : OperationInfo) (who : Principal)
    → IsLive h outer
    → let (ctx, h₁) = with_operation_carrier outer h in
      let (ctx₂, h₂) = with_operation_info ctx info h₁ in
      let (ctx₃, h₃) = with_principal ctx₂ (some who) h₂ in
      (ctx₃ ≡ ctx)
      × (operation_from_context ctx h₃ ≡ (info, true))
      × (principal_from_context ctx h₃ ≡ (some who, true))
unfolding with_operation_carrier with_operation_info with_principal
recorded_is_visible none h info who live =
    let (op, pr) =
      recorded-operation (h ++ blank ∷ []) (length h) info who blank (deref-append_last h blank) in
    (refl, op, pr)
recorded_is_visible (some p) h info who (c, e) =
    let (op, pr) = recorded-operation h p info who c e in (refl, op, pr)

-- A principal that is recorded is the one of the context that is returned.
pub with_principal-visible :
    (ctx : Context) (h : Heap) (who : Principal)
    → IsLive h ctx
    → let (c, g) = with_principal ctx (some who) h in principal_from_context c g ≡ (some who, true)
unfolding with_principal principal_from_context
with_principal-visible none h who live = ap read_principal (deref-append_last h _)
with_principal-visible (some p) h who (c, e) =
    ap read_principal (deref-update_self h p (set_principal who) c e)

pub with_operation_info-IsLive :
    (ctx : Context) (h : Heap) (info : OperationInfo)
    → IsLive h ctx
    → let (c, g) = with_operation_info ctx info h in IsLive g c
unfolding with_operation_info
with_operation_info-IsLive none h info live = (_, deref-append_last h _)
with_operation_info-IsLive (some p) h info (c, e) = (_, deref-update_self h p (set_info info) c e)

abbrev pub SameReads : Context → Heap → Heap → Type 0
SameReads ctx h h' =
    (operation_from_context ctx h' ≡ operation_from_context ctx h)
    × (principal_from_context ctx h' ≡ principal_from_context ctx h)

reads_of_deref : (p : ℕ) (h h' : Heap) → deref h' p ≡ deref h p → SameReads (some p) h h'
unfolding operation_from_context principal_from_context
reads_of_deref p h h' e = (ap read_operation e, ap read_principal e)

deref-alloc :
    (h : Heap) (q : ℕ) (c d : Carrier) → deref h q ≡ some d → deref (h ++ c ∷ []) q ≡ deref h q
deref-alloc h q c d e = deref-append_old h c d q e ∙ sym e

-- What one request records is not seen by another request: through a context with another carrier
-- (or with none allocated for the writer yet) the operation and the principal read as before.
pub other_requests_unaffected :
    (mine : Context) (q : ℕ) (h : Heap) (info : OperationInfo) (who : Option Principal)
    → IsLive h (some q)
    → mine ≢ some q
    → SameReads (some q) h (with_operation_info mine info h).1
      × SameReads (some q) h (with_principal mine who h).1
      × SameReads (some q) h (with_operation_carrier mine h).1
unfolding with_operation_carrier with_operation_info with_principal
other_requests_unaffected none q h info who (d, e) ne = (
  reads_of_deref q h _ (deref-alloc h q _ d e),
  reads_of_deref q h _ (deref-alloc h q _ d e),
  reads_of_deref q h _ (deref-alloc h q _ d e),
)
other_requests_unaffected (some p) q h info who (d, e) ne = (
  reads_of_deref q h _ (deref-update_ne h p q _ (λ same. ne (ap some same))),
  reads_of_deref q h _ (deref-update_ne h p q _ (λ same. ne (ap some same))),
  (refl, refl),
)
