-- ===== src/Conf/Watch/Tests.antt =====
-- conf/watch.go on a file that is written three times: the last time too late.
use zicnode.Prelude.{
  false, none, some, [], ◌∷◌, pos, ◌≡◌, ◌+ℤ◌, refl, str_iff, arith, string_key, ◌==◌, if◌then◌else◌,
}
use zicnode.Conf.{new_conf, load_from_path}
use zicnode.Conf.Watch.{Reading, Watcher, written, notified, woken, watch, happen_all, file_hash}
use zicnode.Conf.Watch.Burst.{happen_all-burst_once}

abbrev reading : Reading
reading = record {
  decode =
      λ content c. if content == "broken" then none else some (record c { pprof_port = pos 1 });
  sha256 = λ content. content;
}

abbrev watcher : Watcher
watcher = record {
  file = some "old";
  pre = pos 0;
  last_hash = "old";
  conf = new_conf;
  pending = 0;
  reloads = 0;
}

watches : watch reading (some "old") new_conf ≡ watcher
unfolding watch file_hash
watches = refl

-- A broken file resets the configuration, and the content that was loaded before is not loaded again.
broken_reverted :
    let w =
      happen_all reading
        (written (some "broken")
          ∷ notified (pos 20000000000) false
          ∷ woken
          ∷ written (some "old")
          ∷ notified (pos 40000000000) false
          ∷ woken
          ∷ [])
        (record watcher { conf = record new_conf { pprof_port = pos 1 } }) in
    (w.conf ≡ new_conf) × (w.reloads ≡ 0)
unfolding happen_all load_from_path ◌+ℤ◌
broken_reverted = (refl, refl)

happen_all-burst_once_example :
    happen_all reading
      (notified (pos 20000000000) false
        ∷ written (some "new")
        ∷ notified (pos 21000000000) false
        ∷ woken
        ∷ written (some "newest")
        ∷ notified (pos 27000000000) false
        ∷ [])
      watcher
    ≡ record watcher {
      file = some "newest";
      pre = pos 20000000000;
      conf = record new_conf { pprof_port = pos 1 };
      last_hash = "new";
      reloads = 1;
    }
unfolding load_from_path ◌+ℤ◌
happen_all-burst_once_example =
    happen_all-burst_once reading (written (some "new") ∷ notified (pos 21000000000) false ∷ [])
      (written (some "newest") ∷ notified (pos 27000000000) false ∷ []) "new" (pos 20000000000)
      (record new_conf { pprof_port = pos 1 }) watcher refl refl (refl, tt) (refl, tt) refl refl
      (λ p. ground (arith, (str_iff "new" "old").1 p))
