-- ===== src/Qhsm.antt =====
-- The hierarchical state machine processor: api/qhsm.h and api/qhsm.c.
-- A `QStateHandler` pointer is `qhsm_top` or `state k`, for `k` in the machine's own type of states.
-- A handler gets a signal and the machine (`me`), and returns its verdict and the machine.
-- `none` is a run that the C code does not survive (a call through NULL, a write past `path`), or
-- a loop that has used up its fuel.
pub mod Chart
pub mod Path
pub mod Transition
pub mod Lives
use locket_api.Prelude.{
  ℕ, zero, suc, Bool, true, false, Option, none, some, List, [], ◌∷◌, ◌++◌, Eq, get_or, length,
  ◌>>=◌,
}

abbrev pub q_max_depth : ℕ
q_max_depth = 8

abbrev pub qep_empty_sig : ℕ
qep_empty_sig = 0

abbrev pub q_entry_sig : ℕ
q_entry_sig = 1

abbrev pub q_exit_sig : ℕ
q_exit_sig = 2

abbrev pub q_init_sig : ℕ
q_init_sig = 3

abbrev pub q_user_sig : ℕ
q_user_sig = 4

-- The `Q_RET_` codes.
pub data QState : Type 0 where
  super unhandled handled ignored tran : QState

pub data Handler {ℓ} (K : Type ℓ) : Type ℓ where
  qhsm_top : Handler K
  state : K → Handler K

-- A machine: the `QHsm` that it begins with, and the members that the program adds.
pub record QHsm {ℓ κ} (K : Type ℓ) (D : Type κ) : Type (ℓ ⊔ κ) where
  pub current : Handler K
  pub effective : Handler K
  pub target : Option (Handler K)
  pub members : D

module _ {ℓ κ} {K : Type ℓ} {D : Type κ} where
  -- `Q_TRAN` and `Q_SUPER`.
  abbrev pub q_tran : Handler K → QHsm K D → QState × QHsm K D
  q_tran t me = (tran, record me { target = some t })

  abbrev pub q_super : Handler K → QHsm K D → QState × QHsm K D
  q_super s me = (super, record me { effective = s })

  -- The assignments that end `do_transition`.
  abbrev pub settle : Handler K → QHsm K D → QHsm K D
  settle target me = record me { current = target; effective = target; target = none }

  unfoldable pub ctor : Handler K → D → QHsm K D
  ctor initial d = record { current = initial; effective = initial; target = none; members = d }

-- The program's handlers, one for each state.
abbrev pub Handlers {ℓ κ} : Type ℓ → Type κ → Type (ℓ ⊔ κ)
Handlers K D = K → ℕ → QHsm K D → QState × QHsm K D

-- Comparison of handler pointers.
abbrev pub same {ℓ} : {K : Type ℓ} ⦃e : Eq K⦄ → Handler K → Handler K → Bool
same qhsm_top qhsm_top = true
same qhsm_top (state k) = false
same (state k) qhsm_top = false
same ⦃e⦄ (state k) (state j) = e.beq k j

-- The index of the first entry of `path` that is the handler.
abbrev pub find_index {ℓ} : {K : Type ℓ} ⦃e : Eq K⦄ → Handler K → List (Handler K) → ℕ → Option ℕ
find_index s [] i = none
find_index s (p ∷ ps) i =
    let rest = find_index s ps (suc i) in elim (same p s) [ true ↦ some i | false ↦ rest ]

module _ {ℓ κ} {K : Type ℓ} {D : Type κ} ⦃e : Eq K⦄ (handlers : Handlers K D) where
  -- A call through a handler pointer; `QHsm_top` ignores every event.
  abbrev pub invoke : Handler K → ℕ → QHsm K D → QState × QHsm K D
  invoke qhsm_top sig me = (ignored, me)
  invoke (state k) sig me = handlers k sig me

  -- One round of leaving: the exit event, and the empty event that finds the parent.
  abbrev pub leave : Handler K → QHsm K D → QHsm K D
  leave source me = (invoke source qep_empty_sig (invoke source q_exit_sig me).1).1

  -- `while (source != effective)`.
  unfoldable pub climb : ℕ → Handler K → Handler K → QHsm K D → Option (QHsm K D)
  climb zero source effective me = none
  climb (suc fuel) source effective me = elim (same source effective) [
    | true ↦ some me
    | false ↦ climb fuel (leave source me).effective effective (leave source me)
  ]

  -- `while (target != &QHsm_top)`, with the slots of `path` that are still free, and `lca`.
  unfoldable pub collect :
      ℕ
      → Handler K
      → Handler K
      → List (Handler K)
      → QHsm K D
      → Option (List (Handler K) × Option ℕ × QHsm K D)
  collect room source qhsm_top path me = some (path, none, me)
  collect zero source (state k) path me = none
  collect (suc room) source (state k) path me =
      let me' = (handlers k qep_empty_sig me).1 in
      elim (same me'.effective source) [
        | true ↦ some (path ++ (me'.effective ∷ []), some (length path), me')
        | false ↦ collect room source me'.effective (path ++ (me'.effective ∷ [])) me'
      ]

  -- `while (lca == -1)`.
  unfoldable pub meet :
      ℕ → Handler K → List (Handler K) → Option ℕ → QHsm K D → Option (ℕ × QHsm K D)
  meet fuel source path (some lca) me = some (lca, me)
  meet zero source path none me = none
  meet (suc fuel) source path none me =
      let me' = leave source me in
      meet fuel me'.effective path (find_index me'.effective path 0) me'

  -- The last `for` loop, which counts down, and its `target`.
  unfoldable pub enter : ℕ → List (Handler K) → Handler K → QHsm K D → Handler K × QHsm K D
  enter zero path target me = (target, me)
  enter (suc i) path target me =
      let t = get_or path i qhsm_top in enter i path t (invoke t q_entry_sig me).1

  -- `do_transition` behind its first loop: the machine has climbed to `source`.
  unfoldable pub cross : ℕ → Handler K → Handler K → QHsm K D → Option (QHsm K D)
  cross fuel source target me = elim (same source target) [
    | true ↦ some (settle target (invoke target q_entry_sig (invoke source q_exit_sig me).1).1)
    | false ↦ do
      (path, found, me') ← collect 7 source target (target ∷ []) me
      (lca, me'') ← meet fuel source path found me'
      let (last, entered) = enter lca path (get_or path lca qhsm_top) me''
      some (settle last entered)
  ]

  unfoldable pub do_transition : ℕ → QHsm K D → Option (QHsm K D)
  do_transition fuel me = do
    target ← me.target
    me' ← climb fuel me.current me.effective me
    cross fuel me.effective target me'

  unfoldable pub init : ℕ → ℕ → QHsm K D → Option (QHsm K D)
  init fuel sig me =
      do_transition fuel (record (invoke me.current sig me).1 { effective = qhsm_top })

  -- `while (result == Q_RET_SUPER)`.
  unfoldable pub bubble : ℕ → ℕ → QState × QHsm K D → Option (QState × QHsm K D)
  bubble zero sig (super, me) = none
  bubble (suc fuel) sig (super, me) = bubble fuel sig (invoke me.effective sig me)
  bubble fuel sig (result, me) = some (result, me)

  -- The `switch` of `QMsm_dispatch`.
  unfoldable pub conclude : ℕ → QState × QHsm K D → Option (QState × QHsm K D)
  conclude fuel (tran, me) = do me' ← do_transition fuel me; some (tran, me')
  conclude fuel (super, me) = some (super, me)
  conclude fuel (result, me) = some (result, record me { effective = me.current })

  unfoldable pub dispatch : ℕ → ℕ → QHsm K D → Option (QState × QHsm K D)
  dispatch fuel sig me = do
    answer ← bubble fuel sig (invoke me.current sig me)
    conclude fuel answer
