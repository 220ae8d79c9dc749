-- ===== src/SlideBuffer/Hold.antt =====
-- The queue that a slide buffer holds, and how the operations that cannot fail change it.
use socket_server_lib.Prelude.{
  ℕ, ◌+◌, ◌^◌, ◌≤◌, ◌<◌, ◌≡◌, ap, ◌∙◌, Bool, true, false, some, List, ◌++◌, arith, length, take,
  drop, ◌==◌, Ends-some,
}
use socket_server_lib.SlideBuffer.{
  SlideBuffer, IsValid, contents, enqueue, pop, peek, get_size, is_empty, view,
}
use socket_server_lib.SlideBuffer.Fifo.{
  put, skip, announced, enqueue-put, pop-skip, length-contents, peek-announced, get_size-length,
  view-take,
}

-- The buffer is in order, has a capacity of `cap` and holds `q`.
pub record Holds (s : SlideBuffer) (cap : ℕ) (q : List ℕ) : Type 0 where
  pub valid : IsValid s
  pub sized : s.capacity ≡ cap
  pub held : contents s ≡ q

module _ {s : SlideBuffer} {cap : ℕ} {q : List ℕ} (h : Holds s cap q) where
  pub length-held : (s.size ≡ length q) × (length q ≤ cap) × (cap < 2 ^ 32)
  length-held = omega (
    arith,
    length-contents h.valid,
    ap (length {A = ℕ}) h.held,
    h.valid.fits,
    h.valid.word,
    h.sized,
  )

  pub get_size-held : get_size s ≡ length q
  get_size-held = get_size-length h.valid ∙ ap (length {A = ℕ}) h.held

  pub is_empty-held : is_empty s ≡ (length q == 0)
  unfolding is_empty
  is_empty-held = ground (arith, length-held)

  pub peek-held : peek s ≡ some (announced q)
  peek-held = peek-announced h.valid ∙ ap (λ x. some (announced x)) h.held

  pub view-held : (n : ℕ) → n ≤ length q → view s n ≡ take n q
  view-held n k =
      view-take h.valid n (omega (arith, ap (length {A = ℕ}) h.held)) ∙ ap (take n) h.held

  pub enqueue-held :
      (source : List ℕ) (n : ℕ)
      → n ≤ length source
      → n + length q < 2 ^ 32
      → (b : Bool) × (t : SlideBuffer) × (enqueue s (some source) n ≡ some (b, t))
        × (b ≡ (put cap q (take n source)).0)
        × Holds t cap (put cap q (take n source)).1
  enqueue-held source n k small =
      let w =
        Ends-some (enqueue s (some source) n) _
          (enqueue-put h.valid source n k (omega (arith, length-held))) in
      let e : put s.capacity (contents s) (take n source) ≡ put cap q (take n source) =
        rw (h.sized, h.held) in
      (
        w.0.0,
        w.0.1,
        w.1,
        ap (λ x. x.0) w.2.1 ∙ ap (λ x. x.0) e,
        record {
          valid = w.2.0.valid;
          sized = w.2.0.same_capacity ∙ h.sized;
          held = ap (λ x. x.1) w.2.1 ∙ ap (λ x. x.1) e;
        },
      )

  pub pop-held :
      (n : ℕ)
      → n ≤ length q
      → (b : Bool) × (t : SlideBuffer) × (pop s n ≡ some (b, t)) × Holds t cap (drop n q)
  unfolding skip
  pop-held n k =
      let w = Ends-some (pop s n) _ (pop-skip h.valid n) in
      let e : skip q n ≡ (true, drop n q) = ground arith in
      (
        w.0.0,
        w.0.1,
        w.1,
        record {
          valid = w.2.0.valid;
          sized = w.2.0.same_capacity ∙ h.sized;
          held = ap (λ x. x.1) w.2.1 ∙ ap (λ x. (skip x n).1) h.held ∙ ap (λ x. x.1) e;
        },
      )

-- With and without room for more bytes.
pub put-room :
    (cap : ℕ) (q bytes : List ℕ)
    → length q + length bytes ≤ cap
    → put cap q bytes ≡ (true, q ++ bytes)
unfolding put
put-room cap q bytes h = ground arith

pub put-no_room :
    (cap : ℕ) (q bytes : List ℕ) → cap < length q + length bytes → put cap q bytes ≡ (false, q)
unfolding put
put-no_room cap q bytes h = ground arith
