-- ===== src/Cache.antt =====
-- nvmevirt/cache.c and cache.h: the table from hash indexes to grains, in sections of the size of a
-- page that are or are not in memory, for the configuration ORIGINAL.
pub mod Sections
pub mod Tests
use virtkv.Ftl.Address.{grain_per_page, grained_unit}
use virtkv.Ssd.Params.{pagesize}
use Prim.Native.Nat.{bit_and}
use virtkv.Common.{
  ℕ, ◌/◌, ◌*◌, Option, ◌^◌, Bool, Outcome, ◌-◌, leb, true, if◌then◌else◌, none, bug, false, some,
  stuck, ok, update, u32, u64,
}

-- `sizeof(ppa_t)`.
abbrev pub entry_size : ℕ
entry_size = 4

abbrev pub epp : ℕ
epp = pagesize / entry_size

-- OFFSET, IDX and IDX2LPA of nvmevirt/cache.h.
abbrev pub offset : ℕ → ℕ
offset hidx = bit_and hidx (epp - 1)

abbrev pub idx_of : ℕ → ℕ
idx_of hidx = hidx / epp

abbrev pub idx2lpa : ℕ → ℕ
idx2lpa idx = idx * epp

pub data MappingState : Type 0 where
  clean dirty c_candidate d_candidate : MappingState

-- `struct ht_section`, less the pairs and keys that `demand_ftl.c` keeps in it. The mappings are the
-- grains by offset, where they are in memory.
pub record HtSection : Type 0 where
  pub idx : ℕ
  pub t_ppa : ℕ
  pub state : MappingState
  pub mappings : Option (ℕ → ℕ)
  pub len_on_disk : ℕ
  pub outgoing : Bool

-- `struct cache`, less its queue. The array of sections is a function of the index, with
-- `nr_valid_tpages` elements.
pub record Cache : Type 0 where
  pub nr_valid_tpages : ℕ
  pub nr_valid_tentries : ℕ
  pub nr_cached_tentries : ℕ
  pub max_cached_tentries : ℕ
  pub ht : ℕ → HtSection

-- UINT_MAX
abbrev pub uint_max : ℕ
uint_max = 2 ^ 32 - 1

-- `init_cache`. Its counts are `int` numbers, here by their 32 bits, of unsigned 64-bit ones.
unfoldable pub init_cache : ℕ → ℕ → Cache
init_cache tt_pgs dram_bytes = record {
  nr_valid_tpages = u32 (u64 (tt_pgs * grain_per_page) / epp);
  nr_valid_tentries = u32 (u64 (tt_pgs * grain_per_page));
  nr_cached_tentries = 0;
  max_cached_tentries = u32 (dram_bytes / grained_unit);
  ht = λ i. record {
    idx = i;
    t_ppa = uint_max;
    state = clean;
    mappings = none;
    len_on_disk = 0;
    outgoing = false;
  };
}

abbrev pub in_memory : Option (ℕ → ℕ) → Bool
in_memory none = false
in_memory (some grains) = true

pub cache_hit : HtSection → Bool
cache_hit ht = in_memory ht.mappings

abbrev pub read_mapping : Option (ℕ → ℕ) → ℕ → Outcome (ℕ × ℕ)
read_mapping none hidx = bug
read_mapping (some grains) hidx = ok (offset hidx, grains (offset hidx))

-- `cache_hidx_to_grain`: the offset and the grain. Without mappings it reads through a null pointer.
pub cache_hidx_to_grain : HtSection → ℕ → Outcome (ℕ × ℕ)
cache_hidx_to_grain ht hidx = read_mapping ht.mappings hidx

-- `cache_get_ht`: the section of the index, which is taken. It waits while another has taken it. An
-- index beyond the array is a fault.
pub cache_get_ht : Cache → ℕ → Outcome (HtSection × Cache)
cache_get_ht c hidx =
    if leb c.nr_valid_tpages (idx_of hidx)
    then bug
    else if (c.ht (idx_of hidx)).outgoing
    then stuck
    else ok (taken_ht, record c { ht = update c.ht (idx_of hidx) taken_ht })
  where
    taken_ht : HtSection
    taken_ht = record (c.ht (idx_of hidx)) { outgoing = true }
