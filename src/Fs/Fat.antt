-- ===== src/Fs/Fat.antt =====
-- kernel/fs.c: the file allocation table: twelve bits for each cluster, packed in pairs of entries into
-- three bytes.
pub mod Entry
pub mod Alloc
pub mod Chain
pub mod Grow
pub mod Cut
pub mod Resize
use vampire_os.Prelude.{
  ℕ, zero, suc, ◌+◌, ◌*◌, ◌/◌, ◌%◌, ◌^◌, ◌<◌, ◌≤◌, List, ◌&&◌, ◌||◌, ◌-◌, ◌++◌, [], ◌∷◌, true,
  false, bit_and, bit_or, get_or, set, length,
}
use vampire_os.Prelude.{Bool, ltb, leb, ◌==◌, if◌then◌else◌}
use vampire_os.Prelude.Bytes.{u8}
use vampire_os.Fs.{sec, chain_max, fat12_eof, byte}

-- `g_fat`, `g_fatsz` and `g_clusters`.
pub record Fat : Type 0 where
  pub bytes : List ℕ
  pub fatsz : ℕ
  pub clusters : ℕ

abbrev pub fat_bytes : Fat → ℕ
fat_bytes t = t.fatsz * sec

-- Where the twelve bits of a cluster start.
abbrev pub entry_at : ℕ → ℕ
entry_at cl = cl + cl / 2

unfoldable pub fat12_ent : Fat → ℕ → ℕ
fat12_ent t cl =
    let off = entry_at cl in
    let v = bit_or (byte t.bytes off) (byte t.bytes (off + 1) * 2 ^ 8) in
    if leb (fat_bytes t) (off + 1) then fat12_eof else if cl % 2 == 1 then v / 2 ^ 4 else v % 0x1000

-- The two writes of an entry: the odd one has the high nibble of its first byte.
unfoldable pub put_odd : List ℕ → ℕ → ℕ → List ℕ
put_odd b off v =
    let first = set b off (u8 (bit_or (byte b off % 0x10) (v % 0x10 * 2 ^ 4))) in
    set first (off + 1) (u8 (v / 2 ^ 4))

unfoldable pub put_even : List ℕ → ℕ → ℕ → List ℕ
put_even b off v =
    let first = set b off (u8 v) in
    set first (off + 1) (u8 (bit_or (bit_and (byte first (off + 1)) 0xf0) (v / 2 ^ 8)))

unfoldable pub fat12_set : Fat → ℕ → ℕ → Fat
fat12_set t cl val =
    let off = entry_at cl in
    let v = val % 0x1000 in
    if leb (fat_bytes t) (off + 1)
    then t
    else record t { bytes = if cl % 2 == 1 then put_odd t.bytes off v else put_even t.bytes off v }

-- The last cluster first: `cl` down to 2.
unfoldable pub alloc_down : ℕ → Fat → ℕ × Fat
alloc_down zero t = (0, t)
alloc_down (suc c) t =
    let rest = alloc_down c t in
    if ltb (suc c) 2
    then (0, t)
    else if fat12_ent t (suc c) == 0
    then (suc c, fat12_set t (suc c) fat12_eof)
    else rest

unfoldable pub fat_alloc : Fat → ℕ × Fat
fat_alloc t = alloc_down (t.clusters + 1) t

-- `cl >= 2u && cl < FAT12_EOF`
abbrev pub is_link : ℕ → Bool
is_link cl = leb 2 cl && ltb cl fat12_eof

-- The loops along a chain are given the hops that are left.
unfoldable pub free_hops : ℕ → ℕ → Fat → Fat
free_hops zero cl t = t
free_hops (suc n) cl t =
    let next = fat12_ent t cl in
    let rest = free_hops n next (fat12_set t cl 0) in if is_link cl then rest else t

unfoldable pub fat_free_chain : ℕ → Fat → Fat
fat_free_chain cl t = free_hops chain_max cl t

-- The clusters that `cls` takes up, and the walk stops where the chain ends or `cls` is full.
unfoldable pub gather : ℕ → ℕ → Fat → List ℕ
gather zero cl t = []
gather (suc n) cl t = let rest = gather n (fat12_ent t cl) t in if is_link cl then cl ∷ rest else []

-- `cls`, `*start` and the table as the loops of `fat_resize` go on; `ok` is false at `return -1`.
pub record ResizeState : Type 0 where
  pub ok : Bool
  pub cls : List ℕ
  pub start : ℕ
  pub table : Fat

-- `cls[have - 1]`, where `have > 0`.
abbrev pub last_of : List ℕ → ℕ
last_of cls = get_or cls (length cls - 1) 0

-- `if (have > 0)`: the new cluster behind the last one, or as the first.
abbrev pub link_new : List ℕ → ℕ → ℕ → Fat → ℕ × Fat
link_new [] start n t = (n, t)
link_new (c ∷ cs) start n t = (start, fat12_set t (last_of (c ∷ cs)) n)

-- `while (have < need)`, by the clusters that are missing.
unfoldable pub grow : ℕ → ResizeState → ResizeState
grow zero r = r
grow (suc missing) r =
    let (n, t) = fat_alloc r.table in
    let (start, linked) = link_new r.cls r.start n t in
    let rest =
      grow missing (record { ok = true; cls = r.cls ++ (n ∷ []); start = start; table = linked }) in
    if ltb n 2 then record r { ok = false; table = t } else rest

-- `while (have > need)`, by the clusters that are too many.
unfoldable pub shrink : ℕ → ℕ → List ℕ → Fat → Fat
shrink zero need cls t = t
shrink (suc extra) need cls t = shrink extra need cls (fat12_set t (get_or cls (need + extra) 0) 0)

unfoldable pub cut_at : ℕ → ResizeState → ResizeState
cut_at need r =
    let t = shrink (length r.cls - need) need r.cls r.table in
    if r.ok
    then record r {
      start = get_or r.cls 0 0;
      table = fat12_set t (get_or r.cls (need - 1) 0) fat12_eof;
    }
    else r

-- `start` is not null. The result is 0 where `ok` is true and -1 where it is not.
unfoldable pub fat_resize : ℕ → ℕ → Fat → ResizeState
fat_resize start need t =
    let cls = gather chain_max start t in
    if need == 0 || ltb chain_max need
    then record { ok = false; cls = []; start = start; table = t }
    else cut_at need
        (grow (need - length cls) (record { ok = true; cls = cls; start = start; table = t }))
