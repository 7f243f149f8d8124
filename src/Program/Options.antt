-- ===== src/Program/Options.antt =====
-- What the command line of src/main.cpp makes of its arguments.
use itchparser.Prelude.{
  ℕ, ◌<◌, ◌^◌, Bool, false, ◌≡◌, ◌≢◌, refl, ap, ◌∙◌, subst, arith, ◌==◌, none, some, List, [], ◌∷◌,
  length, Bool-cases, Option-cases, inl, inr, codes, if◌then◌else◌, if_elim, ==_refl, ==_ne,
}
use itchparser.Endian.{Bytes}
use itchparser.Program.{
  same, is_pow2, Config, defaults, Outcome, help, bad_order_pool_size, bad_level_pool_size, no_path,
  unknown_option, go, is_help, dashed, parse_size, pool_size, take_path, require_path, parse_args,
  configure,
}
use itchparser.Program.Sizes.{is_pow2_lem, is_pow2-positive}

abbrev IsPow2 : ℕ → Type 0
IsPow2 n = (k : ℕ) × (n ≡ 2 ^ k)

-- The sizes in a configuration are powers of two.
abbrev Sized : Config → Type 0
Sized c = IsPow2 c.order_pool_size × IsPow2 c.level_pool_size

-- If the loop ends in a configuration, its sizes are powers of two.
abbrev OutcomeOk : Outcome → Type 0
OutcomeOk (go c) = Sized c
OutcomeOk _ = Unit

pool_size-IsPow2 :
    (strtoull : Bytes → ℕ × ℕ × Bool) (s : Bytes) (v : ℕ) → pool_size strtoull s ≡ some v → IsPow2 v
pool_size-IsPow2 strtoull s v h = elim (Option-cases (parse_size strtoull s)) [
  | inl e ↦ let h' : none ≡ some v = rw (pool_size, e) at h in absurd (ground arith)
  | inr (n, e) ↦
      let h' : (if is_pow2 n then some n else none) ≡ some v = rw (pool_size, e) at h in
      elim (Bool-cases (is_pow2 n)) [
        | inl g ↦
            let h'' : some n ≡ some v = rw g at h' in
            let same_ : n ≡ v = cc in rw (← same_) ((is_pow2_lem n).0 g)
        | inr g ↦ let h'' : none ≡ some v = rw g at h' in absurd (ground arith)
      ]
]

positive_ne : (n : ℕ) → 0 < n → n ≢ 0
positive_ne n h e = omega arith

defaults-Sized : Sized defaults
unfolding defaults
defaults-Sized = ((24, refl), (22, refl))

-- The command line that gives a configuration, with its sizes as the numerals `orders` and `levels`.
abbrev pub arguments : Bytes → Bytes → Config → List Bytes
arguments orders levels c =
    codes "--order-pool-size"
    ∷ orders
    ∷ codes "--level-pool-size"
    ∷ levels
    ∷ codes "--log-path"
    ∷ c.log_path
    ∷ c.path
    ∷ []

module _ (strtoull : Bytes → ℕ × ℕ × Bool) where
  take_path-Ok : (arg : Bytes) (c : Config) → Sized c → OutcomeOk (take_path strtoull arg c)
  take_path-Ok arg c k =
      if_elim OutcomeOk (dashed arg) (unknown_option arg) (go (record c { path = arg })) (λ e. tt)
        (λ e. k)

  parse_args-Ok :
      (args : List Bytes) (c : Config) → Sized c → OutcomeOk (parse_args strtoull args c)
  unfolding parse_args
  parse_args-Ok [] c k = k
  parse_args-Ok (arg ∷ []) c k =
      if_elim OutcomeOk (is_help arg) help (take_path strtoull arg c) (λ e. tt)
        (λ e. take_path-Ok arg c k)
  parse_args-Ok (arg ∷ value ∷ rest) c k = elim (Bool-cases (is_help arg)) [
    | inl e ↦ rw (parse_args, e) tt
    | inr e ↦ elim (Bool-cases (same arg (codes "--order-pool-size"))) [
      | inl f ↦ elim (Option-cases (pool_size strtoull value)) [
        | inl g ↦ rw (parse_args, e, f, g) tt
        | inr (v, g) ↦
            rw (parse_args, e, f, g)
              (parse_args-Ok rest (record c { order_pool_size = v })
                (pool_size-IsPow2 strtoull value v g, k.1))
      ]
      | inr f ↦ elim (Bool-cases (same arg (codes "--level-pool-size"))) [
        | inl g ↦ elim (Option-cases (pool_size strtoull value)) [
          | inl h ↦ rw (parse_args, e, f, g, h) tt
          | inr (v, h) ↦
              rw (parse_args, e, f, g, h)
                (parse_args-Ok rest (record c { level_pool_size = v })
                  (k.0, pool_size-IsPow2 strtoull value v h))
        ]
        | inr g ↦ elim (Bool-cases (same arg (codes "--log-path"))) [
          | inl h ↦
              rw (parse_args, e, f, g, h) (parse_args-Ok rest (record c { log_path = value }) k)
          | inr h ↦ elim (Bool-cases (dashed arg)) [
            | inl d ↦ rw (parse_args, e, f, g, h, d) tt
            | inr d ↦
                rw (parse_args, e, f, g, h, d)
                  (parse_args-Ok (value ∷ rest) (record c { path = arg }) k)
          ]
        ]
      ]
    ]
  ]

  require_path-Ok :
      (o : Outcome) (c : Config)
      → OutcomeOk o
      → require_path o ≡ go c
      → Sized c × (0 < length c.path)
  require_path-Ok (go d) c k h = elim (Bool-cases (length d.path == 0)) [
    | inl e ↦ let h' : no_path ≡ go c = rw e at h in absurd (ground arith)
    | inr e ↦
        let h' : go d ≡ go c = rw e at h in
        let is : d ≡ c = cc in subst (λ c. Sized c × (0 < length c.path)) is (k, ground arith)
  ]
  require_path-Ok help c k h = absurd (ground arith)
  require_path-Ok bad_order_pool_size c k h = absurd (ground arith)
  require_path-Ok bad_level_pool_size c k h = absurd (ground arith)
  require_path-Ok no_path c k h = absurd (ground arith)
  require_path-Ok (unknown_option s) c k h = absurd (ground arith)

  -- If the arguments, whatever they are and whatever `strtoull` answers, lead to a configuration
  -- that the program goes on with, the sizes of both pools are powers of two and the path is not
  -- empty.
  pub configure-Sized :
      (args : List Bytes) (c : Config)
      → configure strtoull args ≡ go c
      → ((k : ℕ) × (c.order_pool_size ≡ 2 ^ k))
        × ((k : ℕ) × (c.level_pool_size ≡ 2 ^ k))
        × (0 < length c.path)
  unfolding configure
  configure-Sized args c h =
      let k =
        require_path-Ok (parse_args strtoull args defaults) c
          (parse_args-Ok args defaults defaults-Sized) h in
      (k.0.0, k.0.1, k.1)

  pool_size-read :
      (s : Bytes) (v : ℕ)
      → strtoull s ≡ (v, length s, false)
      → 0 < length s
      → IsPow2 v
      → pool_size strtoull s ≡ some v
  unfolding parse_size
  pool_size-read s v e h k =
      let p = (is_pow2_lem v).1 k in
      let n0 : v == 0 ≡ false = ==_ne v 0 (positive_ne v (is_pow2-positive v p)) in
      let l0 : length s == 0 ≡ false = ==_ne (length s) 0 (positive_ne (length s) h) in
      rw (pool_size, parse_size, e, l0, ==_refl (length s), n0, p) refl

  order_option :
      (s : Bytes) (rest : List Bytes) (c : Config) (v : ℕ)
      → pool_size strtoull s ≡ some v
      → parse_args strtoull (codes "--order-pool-size" ∷ s ∷ rest) c
        ≡ parse_args strtoull rest (record c { order_pool_size = v })
  unfolding parse_args
  order_option s rest c v h = rw (parse_args, h) refl

  level_option :
      (s : Bytes) (rest : List Bytes) (c : Config) (v : ℕ)
      → pool_size strtoull s ≡ some v
      → parse_args strtoull (codes "--level-pool-size" ∷ s ∷ rest) c
        ≡ parse_args strtoull rest (record c { level_pool_size = v })
  unfolding parse_args
  level_option s rest c v h = rw (parse_args, h) refl

  log_option :
      (s : Bytes) (rest : List Bytes) (c : Config)
      → parse_args strtoull (codes "--log-path" ∷ s ∷ rest) c
        ≡ parse_args strtoull rest (record c { log_path = s })
  unfolding parse_args
  log_option s rest c = refl

  path_last :
      (s : Bytes) (c : Config)
      → is_help s ≡ false
      → dashed s ≡ false
      → parse_args strtoull (s ∷ []) c ≡ go (record c { path = s })
  unfolding parse_args
  path_last s c h d = rw (parse_args, h, d) refl

  -- A configuration can be given: if `strtoull` reads the two numerals whole, as powers of two, and
  -- the path is not empty and not taken for an option, the arguments are read back.
  pub configure-arguments :
      (orders levels : Bytes) (c : Config)
      → strtoull orders ≡ (c.order_pool_size, length orders, false)
      → strtoull levels ≡ (c.level_pool_size, length levels, false)
      → 0 < length orders
      → 0 < length levels
      → ((k : ℕ) × (c.order_pool_size ≡ 2 ^ k))
      → ((k : ℕ) × (c.level_pool_size ≡ 2 ^ k))
      → 0 < length c.path
      → is_help c.path ≡ false
      → dashed c.path ≡ false
      → configure strtoull (arguments orders levels c) ≡ go c
  unfolding configure
  configure-arguments orders levels c a b la lb ka kb p h d =
      let x = pool_size-read orders c.order_pool_size a la ka in
      let y = pool_size-read levels c.level_pool_size b lb kb in
      let z : length c.path == 0 ≡ false = ground arith in
      let sizes = record defaults {
        order_pool_size = c.order_pool_size;
        level_pool_size = c.level_pool_size;
      } in
      let logged = record sizes { log_path = c.log_path } in
      ap require_path (
        order_option orders
          (codes "--level-pool-size" ∷ levels ∷ codes "--log-path" ∷ c.log_path ∷ c.path ∷ [])
          defaults c.order_pool_size x
        ∙ level_option levels (codes "--log-path" ∷ c.log_path ∷ c.path ∷ [])
            (record defaults { order_pool_size = c.order_pool_size }) c.level_pool_size y
        ∙ log_option c.log_path (c.path ∷ []) sizes
        ∙ path_last c.path logged h d)
      ∙ rw z refl
