-- ===== src/Linux/Sysfs/Runs.antt =====
-- The search in /sys at concrete input.
use jcu_dparm.Common.{ℕ, ◌≤◌, ◌+◌, ◌≡◌, refl, List, [], ◌∷◌, map, true, false, length}
use jcu_dparm.Common.{if◌then◌else◌, ◌==◌}
use jcu_dparm.Linux.Sysfs.{DevT, SysFs, error, found, scanned, sys_block, find_dev2}
use jcu_dparm.Linux.Sysfs.{path_append, find_attr_file_path}
use jcu_dparm.Linux.Sysfs.Search.{Reaches, find_dev2_lem}
use jcu_dparm.Linux.Sysfs.Climb.{IsNearest, up, find_attr_file_path-IsNearest}
use jcu_dparm.Linux.Sysfs.Cache.{searched, find_fds, find_fds-searched}

-- /sys/block has the directory "a", of the device 8:0, which has the directory "b", of 8:1. The
-- second directory above "b" has the attribute.
abbrev fs : SysFs ℕ
fs = record {
  leftover = λ p. record { major = 8; minor = 7 };
  list_dir = λ p.
      if length p == 10
      then found (record { name = 0x61 ∷ []; is_dir_or_link = true } ∷ [])
      else found (record { name = 0x62 ∷ []; is_dir_or_link = true } ∷ []);
  scan_dev = λ p.
      if length p == 17
      then scanned record { major = 8; minor = 0 }
      else scanned record { major = 8; minor = 1 };
  scan_attr = λ p. scanned 1;
  inode_of = λ p. found (length p);
  is_readable = λ p. length p == 22;
}

abbrev partition : DevT
partition = record { major = 8; minor = 1 }

abbrev partition_path : List ℕ
partition_path = path_append (path_append sys_block (0x61 ∷ [])) (0x62 ∷ [])

found_now : find_dev2 fs partition 1 sys_block ≡ found partition_path
unfolding find_dev2
found_now = refl

find_dev2_lem_example :
    ((p : List ℕ)
      → find_dev2 fs partition 1 sys_block ≡ found p
      → Reaches fs partition 1 sys_block p)
    × ((n : ℕ)
        → find_dev2 fs partition 1 sys_block ≡ error n
        → (p : List ℕ) → ¬ Reaches fs partition 1 sys_block p)
find_dev2_lem_example = find_dev2_lem fs partition 1 sys_block

abbrev attr : List ℕ
attr = 0x76 ∷ []

climbed_now : find_attr_file_path fs 5 attr partition_path ≡ found (up 2 partition_path)
unfolding find_attr_file_path
climbed_now = refl

find_attr_file_path-IsNearest_example :
    (n : ℕ) × (n ≤ 20)
    × IsNearest fs 5 attr n partition_path (up 2 partition_path)
    × (length (up 2 partition_path) ≤ length partition_path + 60)
find_attr_file_path-IsNearest_example =
    find_attr_file_path-IsNearest fs 5 attr partition_path (up 2 partition_path) climbed_now

find_fds-searched_example :
    find_fds fs
      (found partition ∷ found partition ∷ error 9 ∷ found partition ∷ [])
      (record { have_prev = false; prev = partition; path = [] })
    ≡ map (searched fs) (found partition ∷ found partition ∷ error 9 ∷ found partition ∷ [])
find_fds-searched_example =
    find_fds-searched fs (found partition ∷ found partition ∷ error 9 ∷ found partition ∷ [])
      partition []
