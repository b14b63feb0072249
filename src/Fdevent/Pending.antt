-- ===== src/Fdevent/Pending.antt =====
-- The pending list of fdevent.c: `fdevent_plist_enqueue`, `fdevent_plist_remove` and
-- `fdevent_plist_dequeue` on the `next` and `prev` pointers of the events.
pub mod Ring
pub mod Removal
pub mod Queue
use pax_linux.Base.{ℕ, Option, none, some, ◌==◌, if◌then◌else◌}

-- The fields `next` and `prev` of every `fdevent`, by its address; `none` is a null pointer.
pub record Links : Type 0 where
  pub next : ℕ → Option ℕ
  pub prev : ℕ → Option ℕ

-- A step that reads through a null pointer has no result.
infixl 10 ◌>>=◌
abbrev pub ◌>>=◌ {ℓ κ} : {A : Type ℓ} {B : Type κ} → Option A → (A → Option B) → Option B
none >>= f = none
some a >>= f = f a

abbrev pub assign {ℓ} : {A : Type ℓ} → (ℕ → A) → ℕ → A → ℕ → A
assign f a v x = if x == a then v else f x

-- `a->next = v` and `a->prev = v`.
abbrev pub set_next : Links → ℕ → Option ℕ → Links
set_next l a v = record l { next = assign l.next a v }

abbrev pub set_prev : Links → ℕ → Option ℕ → Links
set_prev l a v = record l { prev = assign l.prev a v }

-- The address of `list_pending`, the head of the circular list.
abbrev pub list_pending : ℕ
list_pending = 0

-- `static fdevent list_pending = { .next = &list_pending, .prev = &list_pending }`.
abbrev pub empty_links : Links
empty_links = record {
  next = λ a. if a == list_pending then some list_pending else none;
  prev = λ a. if a == list_pending then some list_pending else none;
}

pub fdevent_plist_enqueue : Links → ℕ → Option Links
fdevent_plist_enqueue l node = do
  let l1 = set_next l node (some list_pending)
  let l2 = set_prev l1 node (l1.prev list_pending)
  last ← l2.prev node
  let l3 = set_next l2 last (some node)
  some (set_prev l3 list_pending (some node))

pub fdevent_plist_remove : Links → ℕ → Option Links
fdevent_plist_remove l node = do
  before ← l.prev node
  let l1 = set_next l before (l.next node)
  after ← l1.next node
  let l2 = set_prev l1 after (l1.prev node)
  some (set_prev (set_next l2 node none) node none)

-- What is taken from the front, `none` from an empty list.
pub record Dequeued : Type 0 where
  pub links : Links
  pub node : Option ℕ

unlink_first : Links → ℕ → Option Dequeued
unlink_first l node = do
  let l1 = set_next l list_pending (l.next node)
  first ← l1.next list_pending
  let l2 = set_prev l1 first (some list_pending)
  some (record { links = set_prev (set_next l2 node none) node none; node = some node })

pub fdevent_plist_dequeue : Links → Option Dequeued
unfolding unlink_first
fdevent_plist_dequeue l = do
  node ← l.next list_pending
  if node == list_pending then some (record { links = l; node = none }) else unlink_first l node
