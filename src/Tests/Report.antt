-- ===== src/Tests/Report.antt =====
-- A report that is written over an older one, with a rename that fails.
use logrotate_cache_lab.Base.{refl, true, false, Bool, none, some, codes}
use logrotate_cache_lab.Report.Atomic.{
  Place, WriteStep, rename, WriteAnswers, write_json_atomic, IsAtomic, write_json_atomic-IsAtomic,
}

abbrev place : Place
place = record { target = some (codes "old"); temp = none }

abbrev rename_fails : WriteStep → Bool
rename_fails rename = true
rename_fails step = false

abbrev answers : WriteAnswers
answers = record { fails = rename_fails; encoded = 0; remove_fails = false }

write_json_atomic-IsAtomic_example :
    IsAtomic answers (codes "{}") place (write_json_atomic answers (codes "{}") place)
write_json_atomic-IsAtomic_example = write_json_atomic-IsAtomic answers (codes "{}") place refl
