-- ===== src/Fs/Tests/Table.antt =====
-- Tests of the model of the file allocation table, at tables of one sector.
use vampire_os.Prelude.{
  ℕ, zero, suc, ◌+◌, ◌%◌, ◌<◌, ◌≡◌, ◌≢◌, refl, Bool, true, false, ◌&&◌, List, [], ◌∷◌, ◌++◌,
  replicate, arith,
}
use vampire_os.Prelude.{ltb, ◌==◌, if◌then◌else◌}
use vampire_os.Fs.{byte}
use vampire_os.Fs.Fat.{
  Fat, fat_bytes, entry_at, fat12_ent, fat12_set, alloc_down, fat_alloc, fat_free_chain, gather,
  grow, cut_at, fat_resize,
}
use vampire_os.Fs.Fat.Entry.{IsFat, fat12_ent-fat12_set}
use vampire_os.Fs.Fat.Chain.{mem, IsChain, IsFile, inside, fat_free_chain-frees}
use vampire_os.Fs.Fat.Grow.{IsVolume}
use vampire_os.Fs.Fat.Resize.{Resized, fat_resize-Resized, fat_resize-full}

are_bytes : List ℕ → Bool
are_bytes [] = true
are_bytes (x ∷ xs) = ltb x 256 && are_bytes xs

are_bytes_each : (xs : List ℕ) → are_bytes xs ≡ true → (i : ℕ) → byte xs i < 256
unfolding are_bytes
are_bytes_each [] h i = omega arith
are_bytes_each (x ∷ xs) h zero = ground (arith, h)
are_bytes_each (x ∷ xs) h (suc i) = are_bytes_each xs (ground (arith, h)) i

-- Cluster 2 leads to 3, where the chain ends; the others are free.
abbrev short_chain : Fat
short_chain = record {
  bytes = (0xf8 ∷ 0xff ∷ 0xff ∷ 0x03 ∷ 0x80 ∷ 0xff ∷ []) ++ replicate 506 0;
  fatsz = 1;
  clusters = 10;
}

-- The same with no other cluster.
abbrev full_disk : Fat
full_disk = record short_chain { clusters = 2 }

short_chain-IsFat : IsFat short_chain
unfolding are_bytes
short_chain-IsFat = record { each = are_bytes_each short_chain.bytes refl; room = omega arith }

abbrev two : List ℕ
two = 2 ∷ 3 ∷ []

two_links : IsChain short_chain 2 two
unfolding IsChain fat12_ent
two_links = (refl, refl, (refl, refl, refl))

two-IsFile : IsFile short_chain 2 two
unfolding mem fat12_ent
two-IsFile = record {
  chain = two_links;
  used = λ c m e. ground (arith, m, e);
  held = λ c m. ground (arith, m);
}

fat12_ent-fat12_set_example : fat12_ent (fat12_set short_chain 2 0x1234) 2 ≡ (
    if (2 == 2) && ltb (entry_at 2 + 1) (fat_bytes short_chain)
    then 0x1234 % 0x1000
    else fat12_ent short_chain 2)
fat12_ent-fat12_set_example = fat12_ent-fat12_set short_chain 2 0x1234 2 short_chain-IsFat

fat_free_chain-frees_example :
    fat12_ent (fat_free_chain 2 short_chain) 3
    ≡ (if mem 3 two && inside short_chain 3 then 0 else fat12_ent short_chain 3)
fat_free_chain-frees_example =
    fat_free_chain-frees short_chain 2 two 3 short_chain-IsFat two_links (omega arith)

short_chain-IsVolume : IsVolume short_chain
short_chain-IsVolume = record { table = short_chain-IsFat; few = omega arith }

grows : (fat_resize 2 3 short_chain).ok ≡ true
unfolding fat_resize gather grow cut_at fat_alloc alloc_down fat12_ent
grows = refl

fat_resize-Resized_example :
    Resized short_chain two 3 (fat_resize 2 3 short_chain).start (fat_resize 2 3 short_chain).table
fat_resize-Resized_example =
    fat_resize-Resized short_chain 2 two 3 short_chain-IsVolume two-IsFile (omega arith) grows

no_room : (fat_resize 2 3 full_disk).ok ≡ false
unfolding fat_resize gather grow cut_at fat_alloc alloc_down fat12_ent
no_room = refl

full_disk-IsFat : IsFat full_disk
full_disk-IsFat = record { each = short_chain-IsFat.each; room = short_chain-IsFat.room }

fat_resize-full_example : fat12_ent (fat_resize 2 3 full_disk).table 2 ≢ 0
fat_resize-full_example =
    fat_resize-full full_disk 2 3 2 full_disk-IsFat (omega arith) (omega arith) no_room
      (omega arith) (omega arith)
