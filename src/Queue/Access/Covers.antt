-- ===== src/Queue/Access/Covers.antt =====
-- Which queues a call of Read has found empty, and which are still ahead.
use kombiner.Prelude.{refl, sym, subst, List, [], ◌∷◌, ◌⊎◌, inl, inr, All, All-map}
use kombiner.Queue.Store.{QueueRef}
use kombiner.Queue.Access.{Among}

-- Every queue is known to be empty or stands in the rest of the list.
abbrev pub Covers : List QueueRef → List QueueRef → List QueueRef → Type 0
Covers refs seen rest = All (λ ref. Among ref seen ⊎ Among ref rest) refs

pub Covers-seen :
    (refs seen rest : List QueueRef) (ref : QueueRef)
    → Covers refs seen (ref ∷ rest)
    → Covers refs (ref ∷ seen) rest
Covers-seen refs seen rest ref h = All-map refs move h
  where
    move :
        (x : QueueRef) → Among x seen ⊎ Among x (ref ∷ rest) → Among x (ref ∷ seen) ⊎ Among x rest
    move x (inl a) = inl (inr a)
    move x (inr (inl e)) = inl (inl e)
    move x (inr (inr b)) = inr b

pub Covers-All :
    (refs seen : List QueueRef) → Covers refs seen [] → All (λ ref. Among ref seen) refs
Covers-All refs seen h = All-map refs known h
  where
    known : (x : QueueRef) → Among x seen ⊎ Among x [] → Among x seen
    known x (inl a) = a
    known x (inr b) = absurd b

pub Covers-self : (refs : List QueueRef) → Covers refs [] refs
Covers-self refs = go refs (λ x a. a)
  where
    go : (xs : List QueueRef) → ((x : QueueRef) → Among x xs → Among x refs) → Covers xs [] refs
    go [] h = tt
    go (x ∷ xs) h = (inr (h x (inl refl)), go xs (λ y a. h y (inr a)))

pub All-Among : (refs : List QueueRef) → All (λ ref. Among ref refs) refs
All-Among refs = All-map refs known (Covers-self refs)
  where
    known : (x : QueueRef) → Among x [] ⊎ Among x refs → Among x refs
    known x (inl a) = absurd a
    known x (inr b) = b

-- What holds of all holds of one of them.
pub Among-All {κ} :
    (P : QueueRef → Type κ) (refs : List QueueRef) (ref : QueueRef)
    → All P refs
    → Among ref refs
    → P ref
Among-All P [] ref h a = absurd a
Among-All P (x ∷ xs) ref h (inl e) = subst P (sym e) h.0
Among-All P (x ∷ xs) ref h (inr a) = Among-All P xs ref h.1 a
