-- ===== src/Router/Compiled/Segments.antt =====
-- core/router/compiled.go: a route with parameters is found by the paths it stands for.
use fast_server.Router.Compiled.{
  CompiledNode, add_segments, child_or_new, param_or_new, static_match, compiled, find_segments,
  name_of, segment_of,
}
use fast_server.Base.{
  Bytes, Lacks, List, [], insert, map, none, ◌++◌, ◌<◌, ◌∷◌, ◌≡◌, ◌≢◌, bytes_key,
}
use fast_server.Router.Radix.Insert.{added}
use fast_server.Router.Radix.Lookup.{found}

-- A segment of a route, with what a request writes in its place.
pub data Piece : Type 0 where
  fixed : Bytes → Piece
  named : Bytes → Bytes → Piece

abbrev pub pattern_text : Piece → Bytes
pattern_text (fixed s) = s
pattern_text (named name value) = b':' ∷ name

abbrev pub request_text : Piece → Bytes
request_text (fixed s) = s
request_text (named name value) = value

-- A segment that is not empty, of which the first byte has a place in the array.
abbrev IsSegment : Bytes → Type 0
IsSegment [] = ⊥
IsSegment (c ∷ s) = (c < 128) × Lacks b'/' (c ∷ s)

-- No fixed segment begins with ':'.
abbrev pub IsPiece : Piece → Type 0
IsPiece (fixed []) = ⊥
IsPiece (fixed (c ∷ s)) = IsSegment (c ∷ s) × (c ≢ b':')
IsPiece (named name value) = IsSegment value × Lacks b'/' name

abbrev pub params_of : List Piece → List (Bytes × Bytes) → List (Bytes × Bytes)
params_of [] params = params
params_of (fixed s ∷ pieces) params = params_of pieces params
params_of (named name value ∷ pieces) params = params_of pieces (insert name value params)

-- `/` before every segment.
abbrev pub joined : List Bytes → Bytes
joined [] = []
joined (s ∷ ss) = b'/' ∷ (s ++ joined ss)

module _ {H : Type 0} (m : Bytes) (h : H) where
  -- What the loop makes of a node that it has just made, the walk of a request finds.
  Found : List Piece → CompiledNode H → Type 0
  Found pieces n =
      (u : CompiledNode H) × (add_segments m h (map pattern_text pieces) n ≡ added u)
      × (segment_of u ≡ segment_of n)
      × (name_of u ≡ name_of n)
      × ((params : List (Bytes × Bytes))
          → find_segments m (map request_text pieces) u params ≡ found h (params_of pieces params))

  -- On the way of a route into the tree no fixed segment meets another one with the same first byte, a
  -- parameter meets no other name, and no fixed segment there stands for the value of a parameter.
  unfoldable pub IsClear : List Piece → CompiledNode H → Type 0
  IsClear [] n = Unit
  IsClear (fixed [] ∷ pieces) n = ⊥
  IsClear (fixed (c ∷ s) ∷ pieces) (compiled p cs q) =
      (segment_of (child_or_new c (c ∷ s) cs) ≡ c ∷ s) × IsClear pieces (child_or_new c (c ∷ s) cs)
  IsClear (named name [] ∷ pieces) n = ⊥
  IsClear (named name (c ∷ v) ∷ pieces) (compiled p cs q) =
      (static_match m c (c ∷ v) cs ≡ none)
      × (name_of (param_or_new name q) ≡ name)
      × IsClear pieces (param_or_new name q)
