-- ===== src/Transports/Choice.antt =====
-- `acquire_one_transport` of transport.c against the list of the devices that match.
use pax_linux.Base.{
  ◌≡◌, ◌≢◌, ◌↔◌, refl, inl, inr, true, Bool-cases, not, ◌&&◌, List, [], ◌∷◌, Option, none, some,
  if◌then◌else◌, arith,
}
use pax_linux.Adb.{ConnectionState, offline, unauthorized}
use pax_linux.Transports.{
  Device, Wanted, matches, is_noperm, scan, Scan, ambiguity, Failure, refusal, acquire_once, took,
  refused, Taken, not_found, state_code,
}

-- The devices that may be used and match.
abbrev pub candidates : Wanted → List Device → List Device
candidates w [] = []
candidates w (t ∷ rest) =
    let others = candidates w rest in
    if not (is_noperm t.state) && matches w t then t ∷ others else others

-- The only element of a list.
abbrev pub only : List Device → Option Device
only [] = none
only (t ∷ []) = some t
only (t ∷ u ∷ rest) = none

abbrev more : Option Device → List Device → List Device
more none l = l
more (some r) l = r ∷ l

scan-candidates :
    (w : Wanted) (list : List Device) (result : Option Device) (error : Failure)
    → (scan w list result error).result ≡ only (more result (candidates w list))
unfolding scan
scan-candidates w [] none error = refl
scan-candidates w [] (some r) error = refl
scan-candidates w (t ∷ rest) result error = elim (Bool-cases (is_noperm t.state)) [
  | inl denied ↦ rw (scan, denied) (scan-candidates w rest result _)
  | inr free ↦ elim (Bool-cases (matches w t)) [
    | inl hit ↦ rw (scan, free, hit) (step result (scan-candidates w rest (some t) error))
    | inr miss ↦ rw (scan, free, miss) (scan-candidates w rest result error)
  ]
]
  where
    step :
        (r : Option Device)
        → (scan w rest (some t) error).result ≡ only (t ∷ candidates w rest)
        → (elim r as (λ x. Scan) [
          | none ↦ scan w rest (some t) error
          | some q ↦ record { result = none; ambiguous = true; error = ambiguity w }
        ]).result
          ≡ only (more r (t ∷ candidates w rest))
    step none ih = ih
    step (some q) ih = refl

abbrev pub IsRequired : Option ConnectionState → ConnectionState → Type 0
IsRequired none state = Unit
IsRequired (some s) state = state_code state ≡ state_code s

-- The state of the device is the required one, and not offline or unauthorized.
abbrev pub IsUsable : Option ConnectionState → ConnectionState → Type 0
IsUsable required state = (state ≢ offline) × (state ≢ unauthorized) × IsRequired required state

refusal_iff :
    (required : Option ConnectionState) (state : ConnectionState)
    → (refusal required state ≡ none) ↔ IsUsable required state
unfolding refusal
refusal_iff none state = ground arith
refusal_iff (some s) state = ground arith

-- One look at the list takes a device exactly when it is the only one that matches and may be
-- used (devices without permission do not count), and its state is as required, not offline and
-- not unauthorized.
pub acquire_once-took :
    (required : Option ConnectionState) (w : Wanted) (list : List Device) (t : Device)
    → (acquire_once required w list ≡ took t)
      ↔ ((only (candidates w list) ≡ some t) × IsUsable required t.state)
unfolding acquire_once
acquire_once-took required w list t =
    by_result (scan w list none not_found) (only (candidates w list)) t
      (scan-candidates w list none not_found)
  where
    by_result :
        (s : Scan) (o : Option Device) (t : Device)
        → s.result ≡ o
        → (elim s.result as (λ x. Taken) [
          | none ↦ refused s.error s.ambiguous
          | some u ↦ elim (refusal required u.state) as (λ x. Taken) [
            | none ↦ took u
            | some e ↦ refused e s.ambiguous
          ]
        ]
            ≡ took t)
          ↔ ((o ≡ some t) × IsUsable required t.state)
    by_result s o t e = ground (arith, refusal_iff required t.state)
