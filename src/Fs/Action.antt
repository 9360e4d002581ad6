-- ===== src/Fs/Action.antt =====
-- kernel/fs.c: the statics of the file, and functions that may return -1 as actions on them and on the
-- state M of the rest of the machine. A failed action keeps what it has changed.
use vampire_os.Prelude.{ℕ, List, Option, none, some, Bool, true, false}
use vampire_os.Fs.Fat.{Fat}
use vampire_os.Fs.Disk.{Disk}

-- `struct fs_file`. `page` is `data`, taken as the file's bytes in the page, and is none where it is null;
-- `dir_off` is 32 times `slot`.
pub record File : Type 0 where
  pub name : List ℕ
  pub page : Option (List ℕ)
  pub len : ℕ
  pub cluster : ℕ
  pub slot : ℕ
  pub is_dir : Bool

-- `files` as far as `file_count`; `has_fat` stands for `g_fat` and `g_sec`, which share a page, `has_dir`
-- and `has_view` for `g_dir` and `g_view`.
pub record Volume : Type 0 where
  pub files : List File
  pub has_fat : Bool
  pub table : Fat
  pub first_data : ℕ
  pub first_root : ℕ
  pub rsvd : ℕ
  pub root_ent : ℕ
  pub cwd : ℕ
  pub saved_cwd : ℕ
  pub path : List ℕ
  pub has_dir : Bool
  pub dir : List ℕ
  pub dir_bytes : ℕ
  pub has_view : Bool

-- What fs.c calls: the disk, and the pages of page_buf and drop_page.
pub record Machine {ℓ} (M : Type ℓ) : Type ℓ where
  pub disk : Disk M
  pub page_buf : M → Bool × M
  pub drop_page : M → M

pub record State {ℓ} (M : Type ℓ) : Type ℓ where
  pub vol : Volume
  pub rest : M

abbrev pub ⊤ : Type 0
⊤ = Unit

-- None is the result -1.
abbrev pub Act {ℓ κ} : Type ℓ → Type κ → Type (ℓ ⊔ κ)
Act M A = State M → Option A × State M

module _ {ℓ κ} {M : Type ℓ} {A : Type κ} where
  abbrev pub pure : A → Act M A
  pure a s = (some a, s)

  abbrev pub fail : Act M A
  fail s = (none, s)

  abbrev pub gets : (Volume → A) → Act M A
  gets f s = (some (f s.vol), s)

  -- The value, and -1 where there is none.
  abbrev pub from_option : Option A → Act M A
  from_option r s = (r, s)

  -- With the value, or else.
  abbrev pub maybe {μ} : {X : Type μ} → Option X → (X → Act M A) → Act M A → Act M A
  maybe none f g = g
  maybe (some x) f g = f x

  -- The result as a value, for code that goes on after -1.
  abbrev pub attempt : Act M A → Act M (Option A)
  attempt act s = let (r, s') = act s in (some r, s')

module _ {ℓ} {M : Type ℓ} where
  abbrev pub modify : (Volume → Volume) → Act M ⊤
  modify f s = (some tt, record s { vol = f s.vol })

  -- `if (b) return -1;`
  abbrev pub fail_if : Bool → Act M ⊤
  fail_if true s = (none, s)
  fail_if false s = (some tt, s)

  -- A call outside.
  abbrev pub call : (M → Bool × M) → Act M Bool
  call f s = let (ok, m) = f s.rest in (some ok, record s { rest = m })

infixl 5 ◌>>=◌ ◌>>◌
unfoldable pub ◌>>=◌ {ℓ κ μ} :
    {M : Type ℓ} {A : Type κ} {B : Type μ} → Act M A → (A → Act M B) → Act M B
(act >>= f) s = let (r, s') = act s in elim r [ none ↦ (none, s') | some a ↦ f a s' ]

abbrev pub ◌>>◌ {ℓ κ μ} : {M : Type ℓ} {A : Type κ} {B : Type μ} → Act M A → Act M B → Act M B
act >> next = act >>= λ _. next

-- Where the action fails, what is put back before the -1.
unfoldable pub or_undo {ℓ κ} : {M : Type ℓ} {A : Type κ} → Act M A → Act M ⊤ → Act M A
or_undo act undo s =
    let (r, s') = act s in elim r [ none ↦ (none, (undo s').1) | some a ↦ (some a, s') ]
