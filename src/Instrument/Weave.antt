-- ===== src/Instrument/Weave.antt =====
-- The written body as pieces: code of the body, and the calls of the signals with white space.
use pgcov.Base.{
  ℕ, true, ◌||◌, List, [], ◌∷◌, ◌++◌, ◌==◌, Bytes, ◌≡◌, refl, sym, ap, ◌∙◌, All, append_assoc,
  append-nil,
}
use pgcov.Point.{CoveragePoint}

-- A byte that the generated text puts beside a call.
abbrev pub IsSpacing : ℕ → Type 0
IsSpacing c = (c == b' ' || (c == b'\t' || c == b'\n')) ≡ true

pub data Piece : Type 0 where
  code : Bytes → Piece
  note : Bytes → CoveragePoint → Bytes → Piece

-- The code alone, and the coverage points alone.
abbrev pub source : List Piece → Bytes
source [] = []
source (code s ∷ ps) = s ++ source ps
source (note _ _ _ ∷ ps) = source ps

abbrev pub points : List Piece → List CoveragePoint
points [] = []
points (code _ ∷ ps) = points ps
points (note _ cp _ ∷ ps) = cp ∷ points ps

abbrev pub AllSpaced : List Piece → Type 0
AllSpaced [] = Unit
AllSpaced (code _ ∷ ps) = AllSpaced ps
AllSpaced (note before _ after ∷ ps) = All IsSpacing before × All IsSpacing after × AllSpaced ps

source-append : (ps qs : List Piece) → source (ps ++ qs) ≡ source ps ++ source qs
source-append [] qs = refl
source-append (code s ∷ ps) qs =
    ap (λ t. s ++ t) (source-append ps qs) ∙ sym (append_assoc s (source ps) (source qs))
source-append (note _ _ _ ∷ ps) qs = source-append ps qs

points-append : (ps qs : List Piece) → points (ps ++ qs) ≡ points ps ++ points qs
points-append [] qs = refl
points-append (code s ∷ ps) qs = points-append ps qs
points-append (note _ cp _ ∷ ps) qs = ap (◌∷◌ cp) (points-append ps qs)

AllSpaced-append : (ps qs : List Piece) → AllSpaced ps → AllSpaced qs → AllSpaced (ps ++ qs)
AllSpaced-append [] qs h k = k
AllSpaced-append (code s ∷ ps) qs h k = AllSpaced-append ps qs h k
AllSpaced-append (note a cp b ∷ ps) qs h k = (h.0, h.1, AllSpaced-append ps qs h.2 k)

-- The text of a coverage point's call is a parameter.
module _ (call : CoveragePoint → Bytes) where
  abbrev pub render : List Piece → Bytes
  render [] = []
  render (code s ∷ ps) = s ++ render ps
  render (note before cp after ∷ ps) = (before ++ (call cp ++ after)) ++ render ps

  pub render-append : (ps qs : List Piece) → render (ps ++ qs) ≡ render ps ++ render qs
  render-append [] qs = refl
  render-append (code s ∷ ps) qs =
      ap (λ t. s ++ t) (render-append ps qs) ∙ sym (append_assoc s (render ps) (render qs))
  render-append (note a cp b ∷ ps) qs =
      ap (λ t. (a ++ (call cp ++ b)) ++ t) (render-append ps qs)
      ∙ sym (append_assoc (a ++ (call cp ++ b)) (render ps) (render qs))

  -- `text` is the code `original` with the calls of the points woven into it, in order, and nothing
  -- else but spacing.
  pub record Woven (text original : Bytes) (cps : List CoveragePoint) : Type 0 where
    pub pieces : List Piece
    pub rendered : render pieces ≡ text
    pub sources : source pieces ≡ original
    pub points_are : points pieces ≡ cps
    pub spaced : AllSpaced pieces

  pub Woven-append :
      {t u o p : Bytes} {cs ds : List CoveragePoint}
      → Woven t o cs
      → Woven u p ds
      → Woven (t ++ u) (o ++ p) (cs ++ ds)
  Woven-append v w = record {
    pieces = v.pieces ++ w.pieces;
    rendered = rw (render-append v.pieces w.pieces, v.rendered, w.rendered);
    sources = rw (source-append v.pieces w.pieces, v.sources, w.sources);
    points_are = rw (points-append v.pieces w.pieces, v.points_are, w.points_are);
    spaced = AllSpaced-append v.pieces w.pieces v.spaced w.spaced;
  }

  pub Woven-code : (s : Bytes) → Woven s s []
  Woven-code s = record {
    pieces = code s ∷ [];
    rendered = append-nil s;
    sources = append-nil s;
    points_are = refl;
    spaced = tt;
  }

  pub Woven-note :
      (before after : Bytes) (cp : CoveragePoint)
      → All IsSpacing before
      → All IsSpacing after
      → Woven (before ++ (call cp ++ after)) [] (cp ∷ [])
  Woven-note before after cp h k = record {
    pieces = note before cp after ∷ [];
    rendered = append-nil (before ++ (call cp ++ after));
    sources = refl;
    points_are = refl;
    spaced = (h, k, tt);
  }
