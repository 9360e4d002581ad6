-- ===== src/Fs/Tests/Files.antt =====
-- Tests of the model of files and calls in kernel/fs.c, at a disk of sectors in memory.
use vampire_os.Prelude.{
  ℕ, ◌≡◌, refl, true, false, List, [], ◌∷◌, ◌++◌, some, length, replicate, arith, ◌==◌,
}
use vampire_os.Prelude.{if◌then◌else◌}
use vampire_os.Fs.Fat.{Fat, fat12_ent}
use vampire_os.Fs.Fat.Chain.{mem, IsChain}
use vampire_os.Prelude.{none, ◌<◌}
use vampire_os.Bio.{Bdev, Bio, bwrite, past_end}
use vampire_os.Fs.Disk.{disk_of, disk_at, IsSectors}
use vampire_os.Fs.Disk.Partition.{disk_of-IsSectors}
use vampire_os.Fs.File.{lba_of, store_hops, store_chain, load_file}
use vampire_os.Fs.File.RoundTrip.{load_file-store_chain}
use vampire_os.Fs.Look.{fs_init}
use vampire_os.Fs.Action.{Machine, State}
use vampire_os.Fs.Safe.{IsSafe}
use vampire_os.Fs.Safe.Reach.{Call, mkdir, chdir, write, run_all, run_all-IsSafe}

abbrev Sectors : Type 0
Sectors = ℕ → List ℕ

-- A device of 100 sectors, with the partition from sector 10 on.
abbrev ram : Bdev Sectors
ram = record {
  name = 114 ∷ [];
  read = λ lba n m. (some (m lba), m);
  write = λ lba n src m. (true, λ x. if x == lba then src else m x);
  flush = none;
  sectors = 100;
}

abbrev devices : Bio Sectors
devices = record { table = ram ∷ []; part_lba = 10 }

ram-IsSectors : IsSectors (disk_at ram) 100
ram-IsSectors = record {
  sector = λ m x. m x;
  reads = λ lba m h. refl;
  read_keeps = λ lba x m h k. refl;
  writes = λ lba src m h full ok. ground arith;
  write_keeps = λ lba x src m h k ne. ground (arith, ne);
}

devices-IsSectors : IsSectors (disk_of devices) 90
devices-IsSectors =
    disk_of-IsSectors devices ram [] refl 90 (omega arith) (omega arith) (omega arith) ram-IsSectors

-- Cluster 2 leads to 3, where the chain ends.
abbrev chain_table : Fat
chain_table = record {
  bytes = (0xf8 ∷ 0xff ∷ 0xff ∷ 0x03 ∷ 0x80 ∷ 0xff ∷ []) ++ replicate 506 0;
  fatsz = 1;
  clusters = 10;
}

abbrev chain_links : List ℕ
chain_links = 2 ∷ 3 ∷ []

chain_links-IsChain : IsChain chain_table 2 chain_links
unfolding IsChain fat12_ent
chain_links-IsChain = (refl, refl, (refl, refl, refl))

abbrev text : List ℕ
text = replicate 600 7

abbrev empty_disk : Sectors
empty_disk x = []

text-stored : (store_chain (disk_of devices) chain_table 20 2 text empty_disk).0 ≡ true
unfolding store_chain store_hops fat12_ent bwrite past_end
text-stored = refl

chain_in : (c : ℕ) → mem c chain_links ≡ true → lba_of 20 c < 90
unfolding mem
chain_in c h = ground (arith, h)

load_file-store_chain_example :
    let m = (store_chain (disk_of devices) chain_table 20 2 text empty_disk).1 in
    ((load_file (disk_of devices) chain_table 20 2 (length text) m).0 ≡ true)
    × ((load_file (disk_of devices) chain_table 20 2 (length text) m).1 ≡ text)
load_file-store_chain_example =
    load_file-store_chain (disk_of devices) 90 devices-IsSectors chain_table 20 2 chain_links text
      empty_disk chain_links-IsChain (omega arith) chain_in text-stored

abbrev machine : Machine Sectors
machine = record { disk = disk_of devices; page_buf = λ m. (true, m); drop_page = λ m. m }

abbrev started : State Sectors
started = record {
  vol = record {
    files = [];
    has_fat = false;
    table = record { bytes = []; fatsz = 0; clusters = 0 };
    first_data = 0;
    first_root = 0;
    rsvd = 0;
    root_ent = 0;
    cwd = 0;
    saved_cwd = 0;
    path = [];
    has_dir = false;
    dir = [];
    dir_bytes = 0;
    has_view = false;
  };
  rest = empty_disk;
}

-- A directory "d", and the file "f" in it.
abbrev some_calls : List Call
some_calls = mkdir (100 ∷ []) ∷ chdir (100 ∷ []) ∷ write (102 ∷ []) text ∷ []

run_all-IsSafe_example : IsSafe 48 (run_all machine some_calls (fs_init machine started).1).vol
run_all-IsSafe_example = run_all-IsSafe machine some_calls started
