-- ===== src/Core/Carrier.antt =====
-- internal/core/operation.go.
pub mod Visible
use oashttp.Prelude.{
  ℕ, zero, suc, Bool, true, false, Option, none, some, is_some, List, [], ◌∷◌, ◌++◌, length,
}
use oashttp.Prelude.Text.{Text}

pub record OperationInfo : Type 0 where
  pub id : Text
  pub method : Text
  pub route : Text

-- The features and permissions are Go sets, listed here; claims are not read by the program.
pub record Principal : Type 0 where
  pub subject : Text
  pub features : List Text
  pub permissions : List Text

-- `operationCarrier`; the mutex makes each of the functions below one step.
pub record Carrier : Type 0 where
  pub info : OperationInfo
  pub operation_ok : Bool
  pub principal : Option Principal

-- The carriers that were allocated, and a context as its pointer to one of them.
abbrev pub Heap : Type 0
Heap = List Carrier

abbrev pub Context : Type 0
Context = Option ℕ

abbrev pub no_info : OperationInfo
no_info = record { id = []; method = []; route = [] }

abbrev pub blank : Carrier
blank = record { info = no_info; operation_ok = false; principal = none }

-- A pointer's target.
unfoldable pub deref : Heap → ℕ → Option Carrier
deref [] p = none
deref (c ∷ h) zero = some c
deref (c ∷ h) (suc p) = deref h p

unfoldable pub update : Heap → ℕ → (Carrier → Carrier) → Heap
update [] p f = []
update (c ∷ h) zero f = f c ∷ h
update (c ∷ h) (suc p) f = c ∷ update h p f

unfoldable pub alloc : Carrier → Heap → Context × Heap
alloc c h = (some (length h), h ++ c ∷ [])

unfoldable pub with_operation_carrier : Context → Heap → Context × Heap
unfolding alloc
with_operation_carrier none h = alloc blank h
with_operation_carrier (some p) h = (some p, h)

unfoldable pub with_operation_info : Context → OperationInfo → Heap → Context × Heap
unfolding alloc update
with_operation_info none info h =
    alloc (record { info = info; operation_ok = true; principal = none }) h
with_operation_info (some p) info h =
    (some p, update h p (λ c. record c { info = info; operation_ok = true }))

unfoldable pub with_principal : Context → Option Principal → Heap → Context × Heap
unfolding alloc update
with_principal none principal h =
    alloc (record { info = no_info; operation_ok = false; principal = principal }) h
with_principal (some p) principal h = (some p, update h p (λ c. record c { principal = principal }))

unfoldable pub read_operation : Option Carrier → OperationInfo × Bool
read_operation none = (no_info, false)
read_operation (some c) = (c.info, c.operation_ok)

unfoldable pub operation_from_context : Context → Heap → OperationInfo × Bool
unfolding deref read_operation
operation_from_context none h = (no_info, false)
operation_from_context (some p) h = read_operation (deref h p)

unfoldable pub read_principal : Option Carrier → Option Principal × Bool
read_principal none = (none, false)
read_principal (some c) = (c.principal, is_some c.principal)

unfoldable pub principal_from_context : Context → Heap → Option Principal × Bool
unfolding deref read_principal
principal_from_context none h = (none, false)
principal_from_context (some p) h = read_principal (deref h p)
