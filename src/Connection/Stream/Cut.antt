-- ===== src/Connection/Stream/Cut.antt =====
-- Where the bytes that have arrived so far cut the messages that a client sends.
use socket_server_lib.Prelude.{
  ℕ, ◌≤◌, ◌<◌, ◌≡◌, refl, sym, ap, ◌∙◌, none, List, [], ◌∷◌, ◌++◌, append_assoc, arith, length,
  take, drop, dec_lt, take-append-drop, take-append_of_le, take-length-append, drop-length-append,
  drop-append_of_le,
}
use socket_server_lib.SendBuffer.Queue.{joined}
use socket_server_lib.Connection.Framing.{
  Framed, front_message, front_message-nil, front_message-partial,
}

-- Whole messages of at most `longest` bytes.
abbrev pub AllFramed : ℕ → List (List ℕ) → Type 0
AllFramed longest [] = Unit {0}
AllFramed longest (m ∷ ms) = Framed m × (length m ≤ longest) × AllFramed longest ms

-- Of the messages `ms`, the bytes `q` hold `whole` and a part of the next.
pub record Cut (longest : ℕ) (ms : List (List ℕ)) (q later : List ℕ) : Type 0 where
  pub whole : List (List ℕ)
  pub left : List (List ℕ)
  pub part : List ℕ
  pub split : whole ++ left ≡ ms
  pub here : joined whole ++ part ≡ q
  pub there : part ++ later ≡ joined left
  pub not_whole : front_message part ≡ none
  pub short : length part < longest
  pub whole_framed : AllFramed longest whole
  pub left_framed : AllFramed longest left

-- Two ways to cut the same bytes.
front_of_longer :
    (q later m rest : List ℕ)
    → q ++ later ≡ m ++ rest
    → length m ≤ length q
    → (q' : List ℕ) × (q ≡ m ++ q') × (q' ++ later ≡ rest)
front_of_longer q later m rest e h = (
  drop (length m) q,
  sym (take-append-drop (length m) q)
      ∙ ap (λ xs. xs ++ drop (length m) q)
          (sym (take-append_of_le (length m) q later h)
            ∙ ap (take (length m)) e
            ∙ take-length-append m rest),
  sym (drop-append_of_le (length m) q later h) ∙ ap (drop (length m)) e ∙ drop-length-append m rest,
)

part_of_message :
    (q later m rest : List ℕ)
    → q ++ later ≡ m ++ rest
    → length q < length m
    → q ++ drop (length q) m ≡ m
part_of_message q later m rest e h =
    ap (λ xs. xs ++ drop (length q) m)
      (sym (take-length-append q later)
        ∙ ap (take (length q)) e
        ∙ take-append_of_le (length q) m rest (omega arith))
    ∙ take-append-drop (length q) m

pub cut :
    {longest : ℕ} (ms : List (List ℕ)) (q later : List ℕ)
    → 0 < longest
    → AllFramed longest ms
    → q ++ later ≡ joined ms
    → Cut longest ms q later
cut [] [] later pos a e = record {
  whole = [];
  left = [];
  part = [];
  split = refl;
  here = refl;
  there = e;
  not_whole = front_message-nil;
  short = pos;
  whole_framed = tt;
  left_framed = tt;
}
cut [] (x ∷ q) later pos a e = absurd (omega (arith, ap (length {A = ℕ}) e))
cut {longest} (m ∷ ms) q later pos a e = elim (dec_lt (length q) (length m)) [
  | yes part ↦ record {
    whole = [];
    left = m ∷ ms;
    part = q;
    split = refl;
    here = refl;
    there = e;
    not_whole =
        front_message-partial q (drop (length q) m) a.0
          (part_of_message q later m (joined ms) e part) part;
    short = omega arith;
    whole_framed = tt;
    left_framed = a;
  }
  | no more ↦
      let (q', e', e'') = front_of_longer q later m (joined ms) e (omega arith) in
      let r = cut ms q' later pos a.2 e'' in
      record {
        whole = m ∷ r.whole;
        left = r.left;
        part = r.part;
        split = ap (◌∷◌ m) r.split;
        here = append_assoc m (joined r.whole) r.part ∙ ap (◌++◌ m) r.here ∙ sym e';
        there = r.there;
        not_whole = r.not_whole;
        short = r.short;
        whole_framed = (a.0, a.1, r.whole_framed);
        left_framed = r.left_framed;
      }
]
