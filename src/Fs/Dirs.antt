-- ===== src/Fs/Dirs.antt =====
-- kernel/fs.c: the directory on the disk, read, written, and made longer.
use vampire_os.Prelude.{
  ℕ, zero, suc, ◌+◌, ◌-◌, ◌*◌, List, [], ◌∷◌, none, some, not, ◌&&◌, ◌||◌, take, drop, overlay,
  replicate, ltb, ◌==◌, if◌then◌else◌,
}
use vampire_os.Fs.{sec, chain_max, fat12_eof}
use vampire_os.Fs.Fat.{Fat, fat12_ent, fat12_set, fat_alloc, is_link}
use vampire_os.Fs.Dir.{dir_find_run}
use vampire_os.Fs.Action.{
  Volume, Machine, Act, ⊤, pure, maybe, gets, from_option, modify, fail_if, ◌>>=◌, ◌>>◌, or_undo,
}

-- The bytes written over those from `off` on.
unfoldable pub put_at : ℕ → List ℕ → List ℕ → List ℕ
put_at zero bytes xs = overlay xs bytes
put_at (suc off) bytes [] = []
put_at (suc off) bytes (x ∷ xs) = x ∷ put_at off bytes xs

abbrev pub put_dir : ℕ → List ℕ → Volume → Volume
put_dir off bytes v = record v { dir = put_at off bytes v.dir }

abbrev pub set_bytes : ℕ → Volume → Volume
set_bytes n v = record v { dir_bytes = n }

abbrev pub set_table : Fat → Volume → Volume
set_table t v = record v { table = t }

abbrev pub set_entry : ℕ → ℕ → Volume → Volume
set_entry cl val v = record v { table = fat12_set v.table cl val }

-- `dir_lba`
abbrev pub dir_lba : Volume → ℕ
dir_lba v = if ltb v.cwd 2 then v.first_root else v.first_data + (v.cwd - 2)

-- The first cluster behind the sector of the root directory.
abbrev pub root_link : Volume → ℕ
root_link v = if v.has_fat then fat12_ent v.table 1 else 0

-- The last cluster of a chain, by the hops that are left.
unfoldable pub last_link : ℕ → ℕ → ℕ → Fat → ℕ
last_link zero cl last t = last
last_link (suc n) cl last t =
    let next = last_link n (fat12_ent t cl) cl t in if is_link cl then next else last

module _ {ℓ} {M : Type ℓ} (k : Machine M) where
  abbrev pub bread_act : ℕ → ℕ → Act M (List ℕ)
  bread_act lba n s = let (got, m) = k.disk.bread lba n s.rest in (got, record s { rest = m })

  abbrev pub bwrite_act : ℕ → ℕ → List ℕ → Act M ⊤
  bwrite_act lba n src s =
      let (ok, m) = k.disk.bwrite lba n src s.rest in
      (if ok then some tt else none, record s { rest = m })

  -- Both copies of the table.
  unfoldable pub fat_flush : Act M ⊤
  fat_flush = do
    v ← gets (λ v. v)
    fail_if (not v.has_fat || (v.table.fatsz == 0))
    bwrite_act v.rsvd v.table.fatsz v.table.bytes
    bwrite_act (v.rsvd + v.table.fatsz) v.table.fatsz v.table.bytes

  unfoldable pub fat_alloc_act : Act M ℕ
  fat_alloc_act s =
      let (cl, t) = fat_alloc s.vol.table in
      (if ltb cl 2 then none else some cl, record s { vol = set_table t s.vol })

  -- The loop of `dir_load` by the hops that are left; the value is the bytes that are read.
  unfoldable pub load_from : ℕ → ℕ → ℕ → Act M ℕ
  load_from zero cl off = pure off
  load_from (suc n) cl off =
      let step : Act M ℕ = do
        v ← gets (λ v. v)
        bytes ← bread_act (v.first_data + (cl - 2)) 1
        modify (put_dir off bytes)
        load_from n (fat12_ent v.table cl) (off + sec)
      in if is_link cl then step else pure off

  unfoldable pub dir_load : Act M ⊤
  dir_load = do
    v ← gets (λ v. v)
    fail_if (not v.has_dir)
    let root : Act M ⊤ = do
      bytes ← bread_act v.first_root 1
      modify (put_dir 0 bytes)
      off ← load_from 7 (root_link v) sec
      modify (set_bytes off)
    let below : Act M ⊤ = do
      off ← load_from chain_max v.cwd 0
      modify (set_bytes off)
      fail_if (off == 0)
    if ltb v.cwd 2 then root else below

  -- The loop of `dir_store`, the same way.
  unfoldable pub store_from : ℕ → ℕ → ℕ → Act M ℕ
  store_from zero cl off s = (some off, s)
  store_from (suc n) cl off s =
      let step : Act M ℕ = do
        bwrite_act (s.vol.first_data + (cl - 2)) 1 (take sec (drop off s.vol.dir))
        store_from n (fat12_ent s.vol.table cl) (off + sec)
      in if ltb off s.vol.dir_bytes && is_link cl then step s else (some off, s)

  unfoldable pub dir_store : Act M ⊤
  dir_store = do
    v ← gets (λ v. v)
    fail_if (not v.has_dir || (v.dir_bytes == 0))
    let root : Act M ℕ = do
      bwrite_act v.first_root 1 (take sec v.dir)
      store_from 7 (root_link v) sec
    off ← (if ltb v.cwd 2 then root else store_from chain_max v.cwd 0)
    fail_if (ltb off v.dir_bytes)

  -- What `dir_grow` puts back where the table cannot be written.
  abbrev pub cut_off : ℕ → ℕ → Act M ⊤
  cut_off last next = do modify (set_entry last fat12_eof); modify (set_entry next 0); fat_flush

  unfoldable pub dir_grow : Act M ⊤
  dir_grow = do
    v ← gets (λ v. v)
    fail_if (not v.has_fat || not v.has_dir || ltb (chain_max * sec) (v.dir_bytes + sec))
    let last =
        if ltb v.cwd 2
        then last_link 7 (fat12_ent v.table 1) 1 v.table
        else last_link chain_max v.cwd v.cwd v.table
    next ← fat_alloc_act
    modify (set_entry last next)
    or_undo fat_flush (cut_off last next)
    modify (put_dir v.dir_bytes (replicate sec 0))
    modify (set_bytes (v.dir_bytes + sec))

  -- The number of the first entry of a run; the source has the offset, 32 times that.
  unfoldable pub dir_slots : ℕ → Act M ℕ
  dir_slots need = do
    dir_load
    v ← gets (λ v. v)
    let longer : Act M ℕ = do
      dir_grow
      v' ← gets (λ v. v)
      from_option (dir_find_run need v'.dir_bytes v'.dir)
    maybe (dir_find_run need v.dir_bytes v.dir) pure longer
