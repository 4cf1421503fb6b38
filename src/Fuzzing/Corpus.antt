-- ===== src/Fuzzing/Corpus.antt =====
-- `LibFuzzer.start` of fuzzers/libfuzzer.py: the files of the queue.
use apatchy.Base.{
  String, true, false, ◌≡◌, refl, Option, none, some, List, [], ◌∷◌, ◌==◌, string_eq, contains,
  arith, is_some, eq_of_==, subst, sym,
}
use apatchy.Base.Dict.{Dict, lookup, insert, lookup-insert, keys}
use apatchy.Fuzzing.{copy_each, copy_seeds}

-- A directory holds a name once.
abbrev pub IsDirectory : Dict String String → Type 0
IsDirectory [] = Unit
IsDirectory ((name, _) ∷ files) = (lookup name files ≡ none) × IsDirectory files

abbrev pub or_file : Option String → Option String → Option String
or_file none f = f
or_file (some b) f = some b

contains-keys :
    (name : String) (files : Dict String String)
    → contains (keys files) name ≡ is_some (lookup name files)
contains-keys name [] = refl
contains-keys name ((n, b) ∷ files) = ground (arith, contains-keys name files)

module _ (existing : List String) (name : String) where
  lookup-copy_each_old :
      (seeds queue : Dict String String)
      → contains existing name ≡ true
      → lookup name (copy_each existing seeds queue) ≡ lookup name queue
  lookup-copy_each_old [] queue h = refl
  lookup-copy_each_old ((n, b) ∷ seeds) queue h =
      let same : (name == n) ≡ true → contains existing n ≡ true =
        λ e. subst (λ m. contains existing m ≡ true) (eq_of_== name n e) h in
      ground (
        arith,
        same,
        lookup-copy_each_old seeds queue h,
        lookup-copy_each_old seeds (insert n b queue) h,
        lookup-insert name n b queue,
      )

  lookup-copy_each_new :
      (seeds queue : Dict String String)
      → IsDirectory seeds
      → contains existing name ≡ false
      → lookup name (copy_each existing seeds queue)
        ≡ or_file (lookup name seeds) (lookup name queue)
  lookup-copy_each_new [] queue d h = refl
  lookup-copy_each_new ((n, b) ∷ seeds) queue (d, ds) h =
      let same : (name == n) ≡ true → (contains existing n ≡ false) × (lookup name seeds ≡ none) =
        λ e.
          subst (λ m. (contains existing m ≡ false) × (lookup name seeds ≡ none))
            (eq_of_== name n e)
            (h, subst (λ m. lookup m seeds ≡ none) (sym (eq_of_== name n e)) d) in
      ground (
        arith,
        same,
        lookup-copy_each_new seeds queue ds h,
        lookup-copy_each_new seeds (insert n b queue) ds h,
        lookup-insert name n b queue,
      )

-- A start that does not resume leaves each file of the queue as it was, adds the seeds under the
-- names that the queue did not have, and nothing else. The seed directory holds a name once.
pub lookup-copy_seeds :
    (seeds queue : Dict String String) (name : String)
    → IsDirectory seeds
    → lookup name (copy_seeds false (some seeds) queue)
      ≡ or_file (lookup name queue) (lookup name seeds)
unfolding copy_seeds
lookup-copy_seeds seeds queue name d = ground (
  arith,
  contains-keys name queue,
  lookup-copy_each_old (keys queue) name seeds queue,
  lookup-copy_each_new (keys queue) name seeds queue d,
)
