-- ===== src/Conf/Watch/Burst.antt =====
-- conf/watch.go: a burst of changes of the configuration file, and what comes late in it.
use zicnode.Prelude.{
  suc, Bool, true, false, String, Option, some, List, [], ◌∷◌, ◌++◌, ℤ, ◌+ℤ◌, ltb_ℤ, ◌≡◌, ◌≢◌, refl,
  ap, ◌∙◌, arith, string_key, str_iff,
}
use zicnode.Conf.{Conf, new_conf, load_from_path}
use zicnode.Conf.Watch.{
  Reading, Watcher, Happening, written, notified, woken, quiet_time, take_event, changed_to, happen,
  happen_all,
}

-- Writes and notifications that come less than ten seconds after `t`, and no check.
abbrev pub IsBurst : ℤ → List Happening → Type 0
IsBurst t [] = Unit
IsBurst t (written file ∷ hs) = IsBurst t hs
IsBurst t (notified now is_chmod ∷ hs) = (ltb_ℤ now (t +ℤ quiet_time) ≡ true) × IsBurst t hs
IsBurst t (woken ∷ hs) = ⊥

-- The file after them.
abbrev pub file_after : List Happening → Option String → Option String
file_after [] file = file
file_after (written file' ∷ hs) file = file_after hs file'
file_after (notified now is_chmod ∷ hs) file = file_after hs file
file_after (woken ∷ hs) file = file_after hs file

take_event-late :
    (now : ℤ) (b : Bool) (w : Watcher)
    → ltb_ℤ now (w.pre +ℤ quiet_time) ≡ true
    → take_event now b w ≡ w
unfolding take_event
take_event-late now true w h = refl
take_event-late now false w h = ground (arith, h)

happen_all-burst :
    (r : Reading) (hs : List Happening) (w : Watcher)
    → IsBurst w.pre hs
    → happen_all r hs w ≡ record w { file = file_after hs w.file }
unfolding happen_all happen
happen_all-burst r [] w h = refl
happen_all-burst r (written file ∷ hs) w h = happen_all-burst r hs (record w { file = file }) h
happen_all-burst r (notified now b ∷ hs) w h =
    ap (happen_all r hs) (take_event-late now b w h.0) ∙ happen_all-burst r hs w h.1
happen_all-burst r (woken ∷ hs) w h = absurd h

happen_all-append :
    (r : Reading) (hs ks : List Happening) (w : Watcher)
    → happen_all r (hs ++ ks) w ≡ happen_all r ks (happen_all r hs w)
unfolding happen_all
happen_all-append r [] ks w = refl
happen_all-append r (h ∷ hs) ks w = happen_all-append r hs ks (happen r h w)

taken :
    (t : ℤ) (w : Watcher)
    → ltb_ℤ t (w.pre +ℤ quiet_time) ≡ false
    → take_event t false w ≡ record w { pre = t; pending = suc w.pending }
unfolding take_event
taken t w h = ground (arith, h)

changed-loaded :
    (r : Reading) (content : String) (c : Conf) (w : Watcher)
    → load_from_path (r.decode content) new_conf ≡ some c
    → r.sha256 content ≢ w.last_hash
    → changed_to r content (r.sha256 content) w
      ≡ record w { conf = c; last_hash = r.sha256 content; reloads = suc w.reloads }
changed-loaded r content c w h k = ground (arith, str_iff (r.sha256 content) w.last_hash, h, k)

woken_once :
    (r : Reading) (file : Option String) (content : String) (t : ℤ) (c : Conf) (w : Watcher)
    → file ≡ some content
    → w.pending ≡ 0
    → load_from_path (r.decode content) new_conf ≡ some c
    → r.sha256 content ≢ w.last_hash
    → happen r woken (record w { file = file; pre = t; pending = suc w.pending }) ≡ record w {
      file = file;
      pre = t;
      conf = c;
      last_hash = r.sha256 content;
      reloads = suc w.reloads;
    }
unfolding happen
woken_once r file content t c w e p h k =
    rw (e) (changed-loaded r content c (record w { file = some content; pre = t }) h k)

-- No check is pending and a notification comes, ten seconds or more after the last one that was
-- taken. Whatever is written and notified in the ten seconds from then, a check amid it loads the
-- content of its moment, if that can be decoded and its hash is new, with one reload for all that came
-- before. Of what is written after the check, nothing is loaded and no check is left to load it,
-- though it was notified.
pub happen_all-burst_once :
    (r : Reading) (hs ks : List Happening) (content : String) (t : ℤ) (c : Conf) (w : Watcher)
    → w.pending ≡ 0
    → ltb_ℤ t (w.pre +ℤ quiet_time) ≡ false
    → IsBurst t hs
    → IsBurst t ks
    → file_after hs w.file ≡ some content
    → load_from_path (r.decode content) new_conf ≡ some c
    → r.sha256 content ≢ w.last_hash
    → happen_all r (notified t false ∷ hs ++ woken ∷ ks) w ≡ record w {
      file = file_after ks (some content);
      pre = t;
      conf = c;
      last_hash = r.sha256 content;
      reloads = suc w.reloads;
    }
unfolding happen_all happen
happen_all-burst_once r hs ks content t c w p q b b' e h k =
    ap (happen_all r (hs ++ woken ∷ ks)) (taken t w q)
    ∙ happen_all-append r hs (woken ∷ ks) (record w { pre = t; pending = suc w.pending })
    ∙ ap (happen_all r (woken ∷ ks))
        (happen_all-burst r hs (record w { pre = t; pending = suc w.pending }) b)
    ∙ ap (happen_all r ks) (woken_once r (file_after hs w.file) content t c w e p h k)
    ∙ happen_all-burst r ks _ b'
    ∙ ap
        (λ o. record w {
          file = file_after ks o;
          pre = t;
          conf = c;
          last_hash = r.sha256 content;
          reloads = suc w.reloads;
        })
        e
