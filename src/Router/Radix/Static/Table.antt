-- ===== src/Router/Radix/Static/Table.antt =====
-- core/router/radix.go: on routes without wildcards the tree is a table from method and path to
-- handler.
use fast_server.Base.{
  All, Bytes, List, [], ap, arith, bytes_eq, if◌then◌else◌, inl, inr, length, lookup, refl, suc,
  true, ◌&&◌, ◌+◌, ◌∙◌, ◌∷◌, ◌≡◌, ◌⊎◌, bytes_key,
}
use fast_server.Router.Radix.{Node, blank_info, cons, new_router, nil, no_wild, node, size}
use fast_server.Router.Radix.Insert.{Added, add, add_loop, add_route, added, ◌>>=◌}
use fast_server.Router.Radix.Lookup.{Lookup, find, found, get_value, missing}
use fast_server.Router.Radix.Static.{IsStatic, StartsWith, get_value-static, pick, strip}
use fast_server.Router.Radix.Static.Grow.{get_value-leaf, leaf, updated}
use fast_server.Router.Radix.Static.Loop.{add_loop-Grown}
use fast_server.Router.Radix.Static.Enter.{insert_child-no_wild}

pub record Route (H : Type 0) : Type 0 where
  pub method : Bytes
  pub path : Bytes
  pub handler : H

-- A path that `Add` takes, with no ':' and no '*'.
pub record IsPlain {H : Type 0} (r : Route H) : Type 0 where
  pub rest : Bytes
  pub rooted : r.path ≡ b'/' ∷ rest
  pub plain : no_wild r.path ≡ true

module _ {H : Type 0} where
  -- Registrations one after another.
  abbrev pub register : List (Route H) → Node H → Added (Node H)
  register [] t = added t
  register (r ∷ rs) t = do u ← add r.method r.handler t r.path; register rs u

  -- The table: of two routes with one method and path the later counts.
  abbrev pub resolve : List (Route H) → Bytes → Bytes → Lookup H → Lookup H
  resolve [] m q old = old
  resolve (r ∷ rs) m q old =
      resolve rs m q (if bytes_eq r.method m && bytes_eq r.path q then found r.handler [] else old)

  -- The router is new, or it holds static routes.
  abbrev pub IsTree : Node H → Type 0
  IsTree t = (t ≡ new_router) ⊎ ((IsStatic t) × (StartsWith b'/' t))

  abbrev AddedTo : Route H → Node H → Type 0
  AddedTo r t =
      (u : Node H) × (add r.method r.handler t r.path ≡ added u)
      × (IsTree u)
      × ((m q : Bytes) → find m u q ≡ updated r.method r.handler r.path m q [] (find m t q))

  find-get_value : (m q : Bytes) (t : Node H) → find m t q ≡ get_value m t q []
  unfolding find
  find-get_value m q t = refl

  pub find-new_router : (m q : Bytes) → find m (new_router {H = H}) q ≡ missing
  unfolding lookup pick strip
  find-new_router m [] =
      find-get_value m [] new_router ∙ get_value-static m blank_info nil [] [] (refl, tt)
  find-new_router m (c ∷ q) =
      find-get_value m (c ∷ q) new_router ∙ get_value-static m blank_info nil (c ∷ q) [] (refl, tt)

  -- A value of the tree, as a lookup.
  find-updated :
      (r : Route H) (t u : Node H) (m q : Bytes)
      → get_value m u q [] ≡ updated r.method r.handler r.path m q [] (get_value m t q [])
      → find m u q ≡ updated r.method r.handler r.path m q [] (find m t q)
  find-updated r t u m q e = rw (find-get_value m q u, find-get_value m q t) e

  add-rooted :
      (r : Route H) (t : Node H)
      → IsPlain r
      → add r.method r.handler t r.path ≡ add_route r.method r.handler t r.path
  unfolding add
  add-rooted r t w = rw (w.rooted) refl

  add_route-new_router :
      (r : Route H)
      → IsPlain r
      → add_route r.method r.handler new_router r.path ≡ added (leaf r.method r.handler r.path)
  unfolding add_route
  add_route-new_router r w =
      ground (
        arith,
        insert_child-no_wild r.method r.handler (length r.path) blank_info nil r.path w.plain,
      )

  add-new_router : (r : Route H) → IsPlain r → AddedTo r new_router
  add-new_router r w = (
    leaf r.method r.handler r.path,
    add-rooted r new_router w ∙ add_route-new_router r w,
    inr ((refl, tt), (w.rest, w.rooted)),
    λ m q.
        rw (find-new_router m q, find-get_value m q (leaf r.method r.handler r.path))
          (get_value-leaf r.method r.handler r.path m q []),
  )

  add_route-static :
      (r : Route H) (t : Node H)
      → StartsWith b'/' t
      → add_route r.method r.handler t r.path
        ≡ add_loop r.method r.handler (suc (length r.path + size t)) t r.path
  unfolding add_route
  add_route-static r (node n nil) s = ground (arith, s.1)
  add_route-static r (node n (cons c cs)) s = refl

  add-static : (r : Route H) (t : Node H) → IsPlain r → IsStatic t → StartsWith b'/' t → AddedTo r t
  add-static r t w ws s =
      let g =
        add_loop-Grown r.method r.handler (suc (length r.path + size t)) t r.path b'/' w.rest
          (omega arith) w.rooted ws s w.plain in
      (
        g.tree,
        add-rooted r t w ∙ add_route-static r t s ∙ g.result,
        inr (g.static, g.start b'/' s),
        λ m q. find-updated r t g.tree m q (g.value m q []),
      )

  add-IsTree : (r : Route H) (t : Node H) → IsPlain r → IsTree t → AddedTo r t
  add-IsTree r t w (inl e) = rw e (add-new_router r w)
  add-IsTree r t w (inr (ws, s)) = add-static r t w ws s

  register-IsTree :
      (rs : List (Route H)) (t : Node H)
      → All IsPlain rs
      → IsTree t
      → (u : Node H) × (register rs t ≡ added u)
        × ((m q : Bytes) → find m u q ≡ resolve rs m q (find m t q))
  register-IsTree [] t w it = (t, refl, λ m q. refl)
  register-IsTree (r ∷ rs) t w it =
      let (u, e, iu, v) = add-IsTree r t w.0 it in
      let (x, f, y) = register-IsTree rs u w.1 iu in
      (x, rw e f, λ m q. y m q ∙ ap (resolve rs m q) (v m q))

-- Registering any list of routes that begin with '/' and have no wildcard goes through without a
-- panic, in any order, and then `Find` returns for every method and path exactly the handler that
-- was registered last for the two, with no parameters, and nothing where there is none.
pub find-register :
    {H : Type 0} (rs : List (Route H))
    → All IsPlain rs
    → (u : Node H) × (register rs new_router ≡ added u)
      × ((m q : Bytes) → find m u q ≡ resolve rs m q missing)
find-register rs w =
    let (u, e, v) = register-IsTree rs new_router w (inl refl) in
    (u, e, λ m q. v m q ∙ ap (resolve rs m q) (find-new_router m q))
