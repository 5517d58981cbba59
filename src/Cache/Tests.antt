-- ===== src/Cache/Tests.antt =====
-- The mapping table of nvmevirt/cache.c on the disk of 64 MiB that `Ssd.Tests` lays out.
use virtkv.Ssd.Tests.{disk_params, laid_out}
use virtkv.Cache.Sections.{init_cache-sections}
use virtkv.Ssd.Params.{fill_params}
use virtkv.Cache.{Cache, HtSection, cache_hit, init_cache, ok, epp, cache_get_ht, false, stuck}
use virtkv.Common.{◌≡◌, ◌<◌, ◌^◌, ◌*◌, ok, arith, false, stuck}

abbrev table : Cache
table = init_cache 16384 4096

-- The last grain of the disk.
sections_example :
    (table.nr_valid_tentries < 2 ^ 31)
    × (table.nr_valid_tentries ≡ 131072)
    × (table.nr_valid_tpages * epp ≡ table.nr_valid_tentries)
    × (table.max_cached_tentries < 2 ^ 31)
    × (table.max_cached_tentries ≡ 8)
    × ((ht : HtSection) × (c' : Cache) × (cache_get_ht table 131071 ≡ ok (ht, c'))
        × (ht.idx ≡ 127)
        × (cache_hit ht ≡ false)
        × (cache_get_ht c' 131071 ≡ stuck))
unfolding fill_params init_cache
sections_example =
    init_cache-sections (2 ^ 26) 1 disk_params 4096 131071 (omega arith) laid_out (omega arith)
      (omega arith)
