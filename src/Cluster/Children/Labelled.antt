-- ===== src/Cluster/Children/Labelled.antt =====
-- Labels as maps, and calls that write only labelled children.
use inari_operator.Base.{◌≡◌, refl, some, [], ◌∷◌, arith, ◌==◌, ==_iff, if◌then◌else◌}
use inari_operator.Text.{Str, str_eq}
use inari_operator.Cluster.Errors.{Result, ok}
use inari_operator.Cluster.Children.{Child, Labels, set_label, get_label, with_label}
use inari_operator.Cluster.Env.{Env, Trace, Call, Actor, applied}

pub get_label-set_label :
    (k j v : Str) (m : Labels)
    → get_label j (set_label k v m) ≡ (if k == j then some v else get_label j m)
unfolding get_label set_label
get_label-set_label k j v [] = refl
get_label-set_label k j v ((i, u) ∷ m) =
    ground (arith, ==_iff k j, ==_iff i k, ==_iff i j, get_label-set_label k j v m)

pub get_label-with_label :
    (k v : Str) (child : Child) → get_label k (with_label k v child).labels ≡ some v
get_label-with_label k v child = rw (get_label-set_label k k v child.labels, (==_iff k k).1 refl)

-- A child that a write leaves in the cluster has the label, with a value of the set.
abbrev pub Labelled : Str → (Str → Type 0) → Call → Type 0
Labelled k among (applied _ _ _ (ok child)) =
    (v : Str) × (get_label k child.labels ≡ some v) × among v
Labelled k among _ = Unit

-- What is documented of `CreateOrUpdate`: what it leaves in the cluster is what the mutate function
-- made of the object that it found, or of the one that it was given.
abbrev pub AppliesMutate : Env → Type 0
AppliesMutate env =
    (t : Trace) (actor : Actor) (child : Child) (mutate : Child → Result Child) (left : Child)
    → env.create_or_update t actor child mutate ≡ ok left
    → (found : Child) × (mutate found ≡ ok left)
