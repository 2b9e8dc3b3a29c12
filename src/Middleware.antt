-- ===== src/Middleware.antt =====
-- The chains of middlewares: `AddMiddleware` of service_context.go, gateway_handler.go and
-- http_handler.go, and the end of the chain that `NewServiceHandler` (service_handler.go) sets.
-- A `MiddlewareInfo` is an object in `heap`, and a pointer to it is its index there. A middleware
-- takes what a call of its `next` does, `none` for a nil pointer, and the state that it changes.
pub mod Chain
pub mod Refinement
mod Tests
use easycall.Base.{
  ℕ, zero, suc, ◌+◌, Bytes, Bool, true, false, Option, none, some, List, [], ◌∷◌, ◌++◌, length,
  get_elem?, set, lookup, insert, bytes_key, Outcome, panic,
}

abbrev pub Middleware : Type 0 → Type 0
Middleware S = Option (S → Outcome S) → S → Outcome S

pub record MiddlewareInfo (S : Type 0) : Type 0 where
  pub middleware : Middleware S
  pub next : Option ℕ

-- `middlewares[0]`
abbrev pub first : List ℕ → Option ℕ
first [] = none
first (p ∷ ps) = some p

module _ {S : Type 0} where
  -- `p.Next = q`
  unfoldable pub set_next : ℕ → ℕ → List (MiddlewareInfo S) → List (MiddlewareInfo S)
  set_next p q heap = elim (get_elem? heap p) [
    | none ↦ heap
    | some info ↦ set heap p (record info { next = some q })
  ]

  -- `list[mlen-1].Next = q`, if the list is not empty.
  unfoldable pub link_last : List ℕ → ℕ → List (MiddlewareInfo S) → List (MiddlewareInfo S)
  link_last [] q heap = heap
  link_last (p ∷ []) q heap = set_next p q heap
  link_last (p ∷ p' ∷ ps) q heap = link_last (p' ∷ ps) q heap

  abbrev pub info : Middleware S → Option ℕ → MiddlewareInfo S
  info f next = record { middleware = f; next = next }

  -- The new heap, and the new slice.
  unfoldable pub add_middleware :
      Middleware S → List (MiddlewareInfo S) → List ℕ → List (MiddlewareInfo S) × List ℕ
  add_middleware f heap list =
      let minfo = length heap in (link_last list minfo heap ++ info f none ∷ [], list ++ minfo ∷ [])

  -- What `NewServiceHandler` does: `final` follows the last one, and is in the slice only if that
  -- was empty.
  unfoldable pub set_final :
      Middleware S → List (MiddlewareInfo S) → List ℕ → List (MiddlewareInfo S) × List ℕ
  set_final f heap list =
      let final = length heap in
      (
        link_last list final heap ++ info f none ∷ [],
        elim list [ [] ↦ final ∷ [] | p ∷ ps ↦ p ∷ ps ],
      )

  -- `p.Middleware(..., p.Next)`, as what it does to the state; the fuel bounds the chain.
  unfoldable pub call : ℕ → List (MiddlewareInfo S) → Option ℕ → Option (S → Outcome S)
  call fuel heap none = none
  call zero heap (some p) = none
  call (suc fuel) heap (some p) = elim (get_elem? heap p) [
    | none ↦ none
    | some m ↦ some (m.middleware (call fuel heap m.next))
  ]

-- The `middlewares` of `ServiceContext`: a slice for each name.
pub record Middlewares (S : Type 0) : Type 0 where
  pub heap : List (MiddlewareInfo S)
  pub lists : List (Bytes × List ℕ)

-- A nil slice reads as the empty one.
abbrev pub or_empty : Option (List ℕ) → List ℕ
or_empty none = []
or_empty (some list) = list

module _ {S : Type 0} where
  -- A name that has no slice reads as the empty one.
  unfoldable pub list_of : Bytes → Middlewares S → List ℕ
  list_of name m = or_empty (lookup name m.lists)

  -- `ServiceContext.AddMiddleware`
  unfoldable pub add_service_middleware : Bytes → Middleware S → Middlewares S → Middlewares S
  add_service_middleware name f m =
      let (heap, list) = add_middleware f m.heap (list_of name m) in
      record { heap = heap; lists = insert name list m.lists }
