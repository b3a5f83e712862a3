-- ===== src/Router/Radix.antt =====
-- core/router/radix.go. A node and everything below it is reached through one pointer, so a tree of
-- nodes is a value and the walk of `addRoute` rebuilds what it passes. `H` is the type of handlers;
-- a handler that is registered is not nil.
pub mod Insert
pub mod Lookup
pub mod Static
pub mod Total
pub mod Tests
use mathlib.Core.Option
use fast_server.Base.{
  Bool, Bytes, List, Option, [], if◌then◌else◌, map, none, not, some, suc, true, ℕ, ◌&&◌, ◌+◌, ◌==◌,
  ◌||◌, ◌∷◌,
}

pub data Kind : Type 0 where
  static param catch_all : Kind

pub record Info (H : Type 0) : Type 0 where
  pub path : Bytes
  pub indices : Bytes
  pub handlers : List (Bytes × H)
  pub priority : ℕ
  pub kind : Kind
  pub param_name : Bytes

mutual
  pub data Node (H : Type 0) : Type 0 where
    node : Info H → Nodes H → Node H

  pub data Nodes (H : Type 0) : Type 0 where
    nil : Nodes H
    cons : Node H → Nodes H → Nodes H

-- The number of nodes.
unfoldable mutual
  pub size : {H : Type 0} → Node H → ℕ
  size (node n cs) = suc (sizes cs)

  pub sizes : {H : Type 0} → Nodes H → ℕ
  sizes nil = 0
  sizes (cons c cs) = size c + sizes cs

-- `&node{}`
abbrev pub blank_info : {H : Type 0} → Info H
blank_info = record {
  path = [];
  indices = [];
  handlers = [];
  priority = 0;
  kind = static;
  param_name = [];
}

abbrev pub new_node : {H : Type 0} → Node H
new_node = node blank_info nil

-- `NewRadixRouter`
abbrev pub new_router : {H : Type 0} → Node H
new_router = new_node

pub longest_common_prefix : Bytes → Bytes → ℕ
longest_common_prefix (a ∷ s) (b ∷ t) = if a == b then suc (longest_common_prefix s t) else 0
longest_common_prefix _ _ = 0

abbrev pub is_wild : ℕ → Bool
is_wild c = c == b':' || c == b'*'

-- The rest of a path segment, and whether another wildcard stands in it.
pub segment : Bytes → Bytes
segment [] = []
segment (c ∷ s) = if c == b'/' then [] else c ∷ segment s

unfoldable pub no_wild : Bytes → Bool
no_wild [] = true
no_wild (c ∷ s) = not (is_wild c) && no_wild s

pub record Wildcard : Type 0 where
  pub name : Bytes
  pub at : ℕ
  pub valid : Bool

abbrev later : Wildcard → Wildcard
later w = record w { at = suc w.at }

unfoldable pub find_wildcard : Bytes → Option Wildcard
unfolding segment no_wild
find_wildcard [] = none
find_wildcard (c ∷ s) =
    if is_wild c
    then some (record { name = c ∷ segment s; at = 0; valid = no_wild (segment s) })
    else Option.map later (find_wildcard s)

abbrev pub add_child : {H : Type 0} → Nodes H → Node H → Nodes H
add_child nil c = cons c nil
add_child (cons d ds) c = cons d (add_child ds c)
