-- ===== src/ThreadPool/Resize.antt =====
-- Starting, resizing and stopping the pool.
use socket_server_lib.Prelude.{
  ℕ, ◌+◌, ◌-◌, ◌≤◌, ◌<◌, ◌≡◌, refl, ap, ◌∙◌, Bool, true, false, Option, none, some, List, [], ◌∷◌,
  ◌++◌, arith, length, take, replicate, length-replicate, replicate-append, take-replicate, ◌≢◌,
  drop_of_length_le, lt→ltb, ltb, ◌==◌, if◌then◌else◌, ◌>>=◌, dec_lt, ℕ_discrete,
}
use socket_server_lib.ThreadPool.{ThreadPool, all_made, grow, any_joinable, shrink, resize}

-- The pool has `m_thControll` threads, all of them joinable.
pub record InOrder (p : ThreadPool) : Type 0 where
  pub all_there : p.ths ≡ replicate p.controll true

module _ (p : ThreadPool) (o : InOrder p) where
  pub length-ths : length p.ths ≡ p.controll
  length-ths = ap (length {A = Bool}) o.all_there ∙ length-replicate p.controll true

  shrink-InOrder :
      (n : ℕ)
      → shrink p n ≡ some (true, record p { atm = p.controll; controll = n; ths = take n p.ths })
  unfolding shrink any_joinable
  shrink-InOrder n = rw (enough, drop_of_length_le p.controll p.ths (omega (arith, length-ths)))
    where
      enough : ltb (length p.ths) p.controll ≡ false
      enough = ground (arith, length-ths)

-- The pool that is made smaller.
abbrev pub shrunk : ThreadPool → ℕ → ThreadPool
shrunk p n = record p { atm = p.controll; controll = n; ths = take n p.ths }

pub resize-shrinks :
    (p : ThreadPool) (n : ℕ)
    → InOrder p
    → n < p.controll
    → resize p n all_made ≡ some (true, shrunk p n)
unfolding resize
resize-shrinks p n o h = rw (other, not_more, shrink-InOrder p o n)
  where
    other : (p.controll == n) ≡ false
    other = ground (arith, h)

    not_more : ltb p.controll n ≡ false
    not_more = ground (arith, h)

-- Sizes that the pool is given, one after the other, while every thread can be made.
pub resizes : ThreadPool → List ℕ → Option ThreadPool
resizes p [] = some p
resizes p (n ∷ ns) = resize p n all_made >>= λ r. if r.0 then resizes r.1 ns else none

abbrev pub last_of : ℕ → List ℕ → ℕ
last_of n [] = n
last_of n (m ∷ ns) = last_of m ns

grow-InOrder :
    (p : ThreadPool) (n : ℕ)
    → InOrder p
    → p.controll ≤ n
    → InOrder (record p { controll = n; ths = p.ths ++ replicate (n - p.controll) true })
grow-InOrder p n o h = record {
  all_there =
      ap (λ l. l ++ replicate (n - p.controll) true) o.all_there
      ∙ replicate-append p.controll (n - p.controll) true
      ∙ ap (λ k. replicate k true) (sum p.controll n h);
}
  where
    sum : (m n : ℕ) → m ≤ n → m + (n - m) ≡ n
    sum m n h = omega (arith, h)

shrunk-InOrder : (p : ThreadPool) (n : ℕ) → InOrder p → n ≤ p.controll → InOrder (shrunk p n)
shrunk-InOrder p n o h = record {
  all_there = ap (take n) o.all_there ∙ take-replicate n p.controll true h;
}

-- One `Resize` of a pool in order succeeds.
pub resize-InOrder :
    (p : ThreadPool) (n : ℕ)
    → InOrder p
    → (s : ThreadPool) × (resize p n all_made ≡ some (true, s)) × InOrder s × (s.controll ≡ n)
unfolding resize grow
resize-InOrder p n o = elim (ℕ_discrete p.controll n) [
  | yes e ↦ (p, rw (same e), o, e)
  | no ne ↦ elim (dec_lt p.controll n) [
    | yes more ↦ (
      record p { controll = n; ths = p.ths ++ replicate (n - p.controll) true },
      rw (other ne, lt→ltb p.controll n more),
      grow-InOrder p n o (omega (arith, more)),
      refl,
    )
    | no less ↦ (
      shrunk p n,
      resize-shrinks p n o (omega (arith, less, ne)),
      shrunk-InOrder p n o (omega (arith, less, ne)),
      refl,
    )
  ]
]
  where
    same : p.controll ≡ n → (p.controll == n) ≡ true
    same e = ground (arith, e)

    other : p.controll ≢ n → (p.controll == n) ≡ false
    other ne = ground (arith, ne)

-- While every thread can be made, a pool whose `m_thControll` threads are all joinable takes any sequence
-- of sizes: each Resize succeeds, no thread is destroyed before it is joined, and the pool then has as many
-- joinable threads as the last size says.
pub resizes-InOrder :
    (p : ThreadPool) (ns : List ℕ)
    → InOrder p
    → (s : ThreadPool) × (resizes p ns ≡ some s) × (s.ths ≡ replicate (last_of p.controll ns) true)
unfolding resizes
resizes-InOrder p [] o = (p, refl, o.all_there)
resizes-InOrder p (n ∷ ns) o =
    let (t, e, ot, size) = resize-InOrder p n o in
    let (s, f, all) = resizes-InOrder t ns ot in
    (s, rw (e, f), all ∙ ap (λ k. replicate (last_of k ns) true) size)
