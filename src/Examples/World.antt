-- ===== src/Examples/World.antt =====
-- A world with one object of each kind and two records of what the user's functions were called
-- with.
use dk_pull.Base.{ℕ, Option, none, List, [], ◌∷◌, ◌++◌, refl}
use dk_pull.Base.Action.{Action, ok}
use dk_pull.Base.Ref.{Ref, Apart}
use dk_pull.Types.EndOrError.{Done}
use dk_pull.Types.Stream.{SourceCallback}
use dk_pull.Looper.{Looper, idle}
use dk_pull.PullStream.Sources.Values.{Values}
use dk_pull.PullStream.Sources.Count.{Count}
use dk_pull.PullStream.Sinks.Reduce.{State, Leftover}
use dk_pull.PullStream.ProtocolChecker.{ProtocolChecker, new_checker, default_options}

pub record World : Type 0 where
  pub values : Values ℕ
  pub count : Count
  pub looper : Looper
  pub reduction : Option (State (List ℕ))
  pub checker : ProtocolChecker
  pub seen : List ℕ
  pub told : List (Done × List ℕ)

abbrev pub world : List ℕ → ℕ → World
world xs maximum = record {
  values = record { values = xs };
  count = record { i = 0; maximum = maximum };
  looper = idle;
  reduction = none;
  checker = new_checker default_options;
  seen = [];
  told = [];
}

abbrev pub the_values : Ref World (Values ℕ)
the_values = record {
  get = λ w. w.values;
  set = λ x w. record w { values = x };
  get-set = λ x w. refl;
  set-set = λ x y w. refl;
  set-get = λ w. refl;
}

abbrev pub the_count : Ref World Count
the_count = record {
  get = λ w. w.count;
  set = λ x w. record w { count = x };
  get-set = λ x w. refl;
  set-set = λ x y w. refl;
  set-get = λ w. refl;
}

abbrev pub the_looper : Ref World Looper
the_looper = record {
  get = λ w. w.looper;
  set = λ x w. record w { looper = x };
  get-set = λ x w. refl;
  set-set = λ x y w. refl;
  set-get = λ w. refl;
}

abbrev pub the_reduction : Ref World (Option (State (List ℕ)))
the_reduction = record {
  get = λ w. w.reduction;
  set = λ x w. record w { reduction = x };
  get-set = λ x w. refl;
  set-set = λ x y w. refl;
  set-get = λ w. refl;
}

abbrev pub the_checker : Ref World ProtocolChecker
the_checker = record {
  get = λ w. w.checker;
  set = λ x w. record w { checker = x };
  get-set = λ x w. refl;
  set-set = λ x y w. refl;
  set-get = λ w. refl;
}

pub looper_values : Apart the_looper the_values
looper_values = record { get-set_left = λ y w. refl; get-set_right = λ x w. refl }

pub reduction_values : Apart the_reduction the_values
reduction_values = record { get-set_left = λ y w. refl; get-set_right = λ x w. refl }

pub checker_values : Apart the_checker the_values
checker_values = record { get-set_left = λ y w. refl; get-set_right = λ x w. refl }

pub looper_count : Apart the_looper the_count
looper_count = record { get-set_left = λ y w. refl; get-set_right = λ x w. refl }

pub reduction_count : Apart the_reduction the_count
reduction_count = record { get-set_left = λ y w. refl; get-set_right = λ x w. refl }

pub looper_reduction : Apart the_looper the_reduction
looper_reduction = record { get-set_left = λ y w. refl; get-set_right = λ x w. refl }

pub looper_checker : Apart the_looper the_checker
looper_checker = record { get-set_left = λ y w. refl; get-set_right = λ x w. refl }

pub reduction_checker : Apart the_reduction the_checker
reduction_checker = record { get-set_left = λ y w. refl; get-set_right = λ x w. refl }

-- The user's functions: they write down what they get.
abbrev pub see : ℕ → Action World (Unit {0})
see x w = (ok tt, record w { seen = w.seen ++ x ∷ [] })

abbrev pub tell : Done → Action World (Unit {0})
tell e w = (ok tt, record w { told = w.told ++ (e, w.seen) ∷ [] })

-- It copies the vector.
abbrev pub collected_leaves : Leftover World (List ℕ)
collected_leaves e vector w = vector

abbrev pub collected : SourceCallback World (List ℕ)
collected e vector w = (ok tt, record w { told = w.told ++ (e, vector) ∷ [] })
