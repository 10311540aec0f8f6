-- ===== src/Db/Progress.antt =====
-- How far a run over the files of `RunMigrations` has come.
use uber.Base.{
  ◌≤◌, String, Option, none, some, true, false, List, [], ◌∷◌, ◌++◌, ◌≡◌, refl, arith, ok, ap, sym,
  ◌∙◌, append_assoc, append-nil, length, if◌then◌else◌,
}
use uber.Db.Migrations.{Schema, Fs, contains}

-- The files that are still to be applied, in their order.
abbrev pub pending : (files applied : List String) → List String
pending [] applied = []
pending (f ∷ files) applied =
    let rest = pending files applied in
    let rest' = pending files (applied ++ f ∷ []) in if contains f applied then rest else f ∷ rest'

pub pending_old :
    (f : String) (files applied : List String)
    → contains f applied ≡ true
    → pending (f ∷ files) applied ≡ pending files applied
pending_old f files applied old = ground (arith, old)

pub pending_new :
    (f : String) (files applied : List String)
    → contains f applied ≡ false
    → pending (f ∷ files) applied ≡ f ∷ pending files (applied ++ f ∷ [])
pending_new f files applied new = ground (arith, new)

-- The texts of some files.
abbrev pub Contents : Fs → (files contents : List String) → Type 0
Contents fs [] [] = Unit
Contents fs (f ∷ files) (c ∷ cs) = (fs.read_file f ≡ ok c) × Contents fs files cs
Contents fs _ _ = ⊥

-- A run over some files: those of the pending ones that it has recorded, the texts that it has
-- executed for them, and at most one more text. Without an error nothing is left.
pub record Progress (fs : Fs) (files : List String) (s s' : Schema) (failed : Option String)
    : Type 0 where
  pub done : List String
  pub rest : List String
  pub texts : List String
  pub extra : List String
  pub split : pending files s.applied ≡ done ++ rest
  pub contents : Contents fs done texts
  pub recorded : s'.applied ≡ s.applied ++ done
  pub ran : s'.executed ≡ s.executed ++ (texts ++ extra)
  pub one_more : length extra ≤ 1
  pub complete : failed ≡ none → (rest ≡ []) × (extra ≡ [])

module _ (fs : Fs) where
  pub Progress-skip :
      (f : String) (files : List String) (s s' : Schema) (failed : Option String)
      → contains f s.applied ≡ true
      → Progress fs files s s' failed
      → Progress fs (f ∷ files) s s' failed
  Progress-skip f files s s' failed old p = record {
    done = p.done;
    rest = p.rest;
    texts = p.texts;
    extra = p.extra;
    split = pending_old f files s.applied old ∙ p.split;
    contents = p.contents;
    recorded = p.recorded;
    ran = p.ran;
    one_more = p.one_more;
    complete = p.complete;
  }

  pub Progress-record :
      (f c : String) (files : List String) (s s1 s' : Schema) (failed : Option String)
      → contains f s.applied ≡ false
      → fs.read_file f ≡ ok c
      → s1.applied ≡ s.applied ++ f ∷ []
      → s1.executed ≡ s.executed ++ c ∷ []
      → Progress fs files s1 s' failed
      → Progress fs (f ∷ files) s s' failed
  Progress-record f c files s s1 s' failed new read more ran p = record {
    done = f ∷ p.done;
    rest = p.rest;
    texts = c ∷ p.texts;
    extra = p.extra;
    split =
        pending_new f files s.applied new
        ∙ ap (λ applied. f ∷ pending files applied) (sym more)
        ∙ ap (◌∷◌ f) p.split;
    contents = (read, p.contents);
    recorded = p.recorded ∙ ap (λ xs. xs ++ p.done) more ∙ append_assoc s.applied (f ∷ []) p.done;
    ran =
        p.ran
        ∙ ap (λ xs. xs ++ (p.texts ++ p.extra)) ran
        ∙ append_assoc s.executed (c ∷ []) (p.texts ++ p.extra);
    one_more = p.one_more;
    complete = p.complete;
  }

  pub Progress-stop :
      (f e : String) (files extra : List String) (s s' : Schema)
      → s'.applied ≡ s.applied
      → s'.executed ≡ s.executed ++ extra
      → length extra ≤ 1
      → Progress fs (f ∷ files) s s' (some e)
  Progress-stop f e files extra s s' same ran one = record {
    done = [];
    rest = pending (f ∷ files) s.applied;
    texts = [];
    extra = extra;
    split = refl;
    contents = tt;
    recorded = same ∙ sym (append-nil _);
    ran = ran;
    one_more = one;
    complete = λ h. cc;
  }

  pub Progress-nil :
      (files : List String) (s : Schema) (e : Option String)
      → (e ≡ none → pending files s.applied ≡ [])
      → Progress fs files s s e
  Progress-nil files s e h = record {
    done = [];
    rest = pending files s.applied;
    texts = [];
    extra = [];
    split = refl;
    contents = tt;
    recorded = sym (append-nil _);
    ran = sym (append-nil _);
    one_more = omega arith;
    complete = λ k. (h k, refl);
  }

  pub Progress-start :
      (files : List String) (s s1 s' : Schema) (failed : Option String)
      → s1.applied ≡ s.applied
      → s1.executed ≡ s.executed
      → Progress fs files s1 s' failed
      → Progress fs files s s' failed
  Progress-start files s s1 s' failed same same' p = record {
    done = p.done;
    rest = p.rest;
    texts = p.texts;
    extra = p.extra;
    split = ap (pending files) (sym same) ∙ p.split;
    contents = p.contents;
    recorded = p.recorded ∙ ap (λ xs. xs ++ p.done) same;
    ran = p.ran ∙ ap (λ xs. xs ++ (p.texts ++ p.extra)) same';
    one_more = p.one_more;
    complete = p.complete;
  }
