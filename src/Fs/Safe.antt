-- ===== src/Fs/Safe.antt =====
-- kernel/fs.c: the buffers of fixed size, and the rules for what an action leaves of them.
pub mod Dirs
pub mod Walk
pub mod Table
pub mod Path
pub mod Calls
pub mod Edit
pub mod Reach
use vampire_os.Prelude.{
  ℕ, ◌*◌, ◌<◌, ◌≤◌, ◌≡◌, ◌⊎◌, inl, inr, refl, subst, sym, ◌∙◌, Option, none, some, Bool, true,
  false, length, arith,
}
use vampire_os.Prelude.{Option-cases, if◌then◌else◌}
use vampire_os.Fs.{sec, chain_max, path_max}
use vampire_os.Fs.Action.{
  Volume, State, Act, ⊤, pure, fail, maybe, gets, from_option, attempt, modify, fail_if, call,
  ◌>>=◌, or_undo,
}

-- `files`, `g_dir`, `g_path` and the part of the page in front of `g_sec` hold what is in them, the files being n at most.
pub record IsSafe (n : ℕ) (v : Volume) : Type 0 where
  pub files_fit : length v.files ≤ n
  pub dir_fits : v.dir_bytes ≤ chain_max * sec
  pub path_fits : length v.path < path_max
  pub table_fits : v.table.fatsz ≤ 4

-- The action keeps that, and what it returns has the property.
pub record Post {ℓ κ} {M : Type ℓ} {A : Type κ} (n : ℕ) (P : A → Type 0) (act : Act M A)
    : Type (ℓ ⊔ κ) where
  pub keeps : (s : State M) → IsSafe n s.vol → IsSafe n (act s).1.vol
  pub gives : (s : State M) (a : A) → IsSafe n s.vol → (act s).0 ≡ some a → P a

abbrev pub Any {κ} : {A : Type κ} → A → Type 0
Any _ = Unit

abbrev pub Keeps {ℓ κ} : {M : Type ℓ} {A : Type κ} → ℕ → Act M A → Type (ℓ ⊔ κ)
Keeps n act = Post n Any act

module _ {ℓ κ} {M : Type ℓ} {A : Type κ} {n : ℕ} where
  pub pure-Post : (P : A → Type 0) (a : A) → P a → Post {M = M} n P (pure a)
  pure-Post P a p = record {
    keeps = λ s h. h;
    gives = λ s b h e. let same : a ≡ b = ground (arith, e) in subst P same p;
  }

  pub fail-Post : (P : A → Type 0) → Post {M = M} n P fail
  fail-Post P = record { keeps = λ s h. h; gives = λ s b h e. absurd (ground (arith, e)) }

  pub gets-Post :
      (P : A → Type 0) (f : Volume → A)
      → ((v : Volume) → IsSafe n v → P (f v))
      → Post {M = M} n P (gets f)
  gets-Post P f p = record {
    keeps = λ s h. h;
    gives = λ s b h e. let same : f s.vol ≡ b = ground (arith, e) in subst P same (p s.vol h);
  }

  pub maybe-Post {μ} :
      {X : Type μ} {P : A → Type 0} (r : Option X) {f : X → Act M A} {g : Act M A}
      → ((x : X) → Post n P (f x))
      → Post n P g
      → Post n P (maybe r f g)
  maybe-Post none p q = q
  maybe-Post (some x) p q = p x

  pub any-Keeps : {P : A → Type 0} {act : Act M A} → Post n P act → Keeps n act
  any-Keeps p = record { keeps = p.keeps; gives = λ s b h e. tt }

  pub from_option-Keeps : (r : Option A) → Keeps {M = M} n (from_option r)
  from_option-Keeps r = record { keeps = λ s h. h; gives = λ s b h e. tt }

  pub attempt-Keeps : (P : A → Type 0) (act : Act M A) → Post n P act → Keeps n (attempt act)
  attempt-Keeps P act p = record { keeps = p.keeps; gives = λ s b h e. tt }

  -- An action whose changes are outside.
  pub outside-Keeps : (act : Act M A) → ((s : State M) → (act s).1.vol ≡ s.vol) → Keeps n act
  outside-Keeps act same = record {
    keeps = λ s h. subst (IsSafe n) (sym (same s)) h;
    gives = λ s b h e. tt;
  }

  pub or_undo-Post :
      (P : A → Type 0) (act : Act M A) (undo : Act M ⊤)
      → Post n P act
      → Keeps n undo
      → Post n P (or_undo act undo)
  unfolding or_undo
  or_undo-Post P act undo p q = record {
    keeps = λ s h. elim (Option-cases (act s).0) [
      | inl e ↦ rw (e, or_undo) (q.keeps _ (p.keeps s h))
      | inr (a, e) ↦ rw (e, or_undo) (p.keeps s h)
    ];
    gives = λ s b h r. elim (Option-cases (act s).0) [
      | inl e ↦ absurd (ground (arith, rw (e, or_undo) at r))
      | inr (a, e) ↦ p.gives s b h (e ∙ (rw (e, or_undo) at r))
    ];
  }

module _ {ℓ} {M : Type ℓ} {n : ℕ} where
  pub modify-Keeps :
      (f : Volume → Volume)
      → ((v : Volume) → IsSafe n v → IsSafe n (f v))
      → Keeps {M = M} n (modify f)
  modify-Keeps f p = record { keeps = λ s h. p s.vol h; gives = λ s b h e. tt }

  -- Behind the test, it has failed.
  pub fail_if-Post : (b : Bool) → Post {M = M} n (λ _. b ≡ false) (fail_if b)
  fail_if-Post true = record { keeps = λ s h. h; gives = λ s a h e. absurd (ground (arith, e)) }
  fail_if-Post false = record { keeps = λ s h. h; gives = λ s a h e. refl }

pub bind-Post {ℓ κ μ} :
    {M : Type ℓ} {A : Type κ} {B : Type μ} {n : ℕ} {P : A → Type 0} {Q : B → Type 0} {act : Act M A}
    {f : A → Act M B}
    → Post n P act
    → ((a : A) → P a → Post n Q (f a))
    → Post n Q (act >>= f)
unfolding ◌>>=◌
bind-Post {P = P} {Q = Q} {act = act} {f = f} p q = record {
  keeps = λ s h. elim (Option-cases (act s).0) [
    | inl e ↦ rw (e, ◌>>=◌) (p.keeps s h)
    | inr (a, e) ↦ rw (e, ◌>>=◌) ((q a (p.gives s a h e)).keeps _ (p.keeps s h))
  ];
  gives = λ s b h r. elim (Option-cases (act s).0) [
    | inl e ↦ absurd (ground (arith, rw (e, ◌>>=◌) at r))
    | inr (a, e) ↦ (q a (p.gives s a h e)).gives _ b (p.keeps s h) (rw (e, ◌>>=◌) at r)
  ];
}

-- Either branch of a test.
pub if-Post {ℓ κ} :
    {M : Type ℓ} {A : Type κ} {n : ℕ} {P : A → Type 0} (b : Bool) {yes_ no_ : Act M A}
    → Post n P yes_
    → Post n P no_
    → Post n P (if b then yes_ else no_)
if-Post true p q = p
if-Post false p q = q

-- The same from one bound on the files to another: for what ends with one file more.
pub record Ends {ℓ κ} {M : Type ℓ} {A : Type κ} (n n' : ℕ) (act : Act M A) : Type ℓ where
  pub ends : (s : State M) → IsSafe n s.vol → IsSafe n' (act s).1.vol

pub IsSafe-mono : (n n' : ℕ) (v : Volume) → n ≤ n' → IsSafe n v → IsSafe n' v
IsSafe-mono n n' v p h = record {
  files_fit = omega (arith, p, h.files_fit);
  dir_fits = h.dir_fits;
  path_fits = h.path_fits;
  table_fits = h.table_fits;
}

pub bind-Ends {ℓ κ μ} :
    {M : Type ℓ} {A : Type κ} {B : Type μ} {n n' : ℕ} {P : A → Type 0} {act : Act M A}
    {f : A → Act M B}
    → n ≤ n'
    → Post n P act
    → ((a : A) → P a → Ends n n' (f a))
    → Ends n n' (act >>= f)
unfolding ◌>>=◌
bind-Ends {n = n} {n' = n'} {act = act} le p q = record {
  ends = λ s h. elim (Option-cases (act s).0) [
    | inl e ↦ rw (e, ◌>>=◌) (IsSafe-mono n n' _ le (p.keeps s h))
    | inr (a, e) ↦ rw (e, ◌>>=◌) ((q a (p.gives s a h e)).ends (act s).1 (p.keeps s h))
  ];
}

-- The first action adds the file.
pub then-Ends {ℓ κ μ} :
    {M : Type ℓ} {A : Type κ} {B : Type μ} {n n' : ℕ} {act : Act M A} {f : A → Act M B}
    → Ends n n' act
    → ((a : A) → Keeps n' (f a))
    → Ends n n' (act >>= f)
unfolding ◌>>=◌
then-Ends {act = act} p q = record {
  ends = λ s h. elim (Option-cases (act s).0) [
    | inl e ↦ rw (e, ◌>>=◌) (p.ends s h)
    | inr (a, e) ↦ rw (e, ◌>>=◌) ((q a).keeps (act s).1 (p.ends s h))
  ];
}
