-- ===== src/Api/DeepCopy/Configuration/Queues.antt =====
-- A copy of a queue's configuration stands in arrays of its own.
use kombiner.Prelude.{◌≡◌, List, [], ◌∷◌, some, All, Yields, yields, Yields-bind}
use kombiner.Api.Config.{PluginSet, Plugins, Queue}
use kombiner.Api.DeepCopy.Fresh.{entries}
use kombiner.Api.DeepCopy.Configuration.{
  Texts, PluginSetStruct, PluginsStruct, QueueStruct, copy_plugin_set, copy_plugins, copy_queue,
  copy_queues,
}
use kombiner.Api.DeepCopy.Configuration.Grows.{
  Grows, IsNew, Grows-refl, Grows-trans, entries-Grows, IsNew-Grows, copy_slice-IsNew,
}

abbrev pub ShowsSet : Texts → PluginSetStruct → PluginSet → Type 0
ShowsSet texts s p =
    (entries texts s.enabled ≡ some p.enabled) × (entries texts s.disabled ≡ some p.disabled)

abbrev pub IsNewSet : Texts → PluginSetStruct → Type 0
IsNewSet texts s = IsNew texts s.enabled × IsNew texts s.disabled

pub ShowsSet-Grows :
    {texts texts' : Texts} (s : PluginSetStruct) (p : PluginSet)
    → Grows texts texts'
    → ShowsSet texts s p
    → ShowsSet texts' s p
ShowsSet-Grows s p g shows =
    (entries-Grows s.enabled p.enabled g shows.0, entries-Grows s.disabled p.disabled g shows.1)

copy_plugin_set-IsNewSet :
    (texts : Texts) (s : PluginSetStruct) (p : PluginSet)
    → ShowsSet texts s p
    → Yields
        (λ r. Grows texts r.1 × ShowsSet r.1 r.0 p × IsNewSet texts r.0)
        (copy_plugin_set s texts)
unfolding copy_plugin_set
copy_plugin_set-IsNewSet texts s p (enabled, disabled) =
    Yields-bind (copy_slice-IsNew texts s.enabled p.enabled enabled)
      λ (e, texts1) (g, shows_e, new_e).
        Yields-bind
          (copy_slice-IsNew texts1 s.disabled p.disabled
            (entries-Grows s.disabled p.disabled g disabled))
          λ (d, texts2) (h, shows_d, new_d). yields (
            Grows-trans g h,
            (entries-Grows e p.enabled h shows_e, shows_d),
            (new_e, IsNew-Grows d g new_d),
          )

-- The memory shows the struct as the queue.
pub record ShowsQueue (texts : Texts) (s : QueueStruct) (q : Queue) : Type 0 where
  pub scheduler_name : s.scheduler_name ≡ q.scheduler_name
  pub weight : s.weight ≡ q.weight
  pub max_size : s.max_size ≡ q.max_size
  pub plugins : ShowsSet texts s.plugins.validate q.plugins.validate

abbrev pub ShowsQueues : Texts → List QueueStruct → List Queue → Type 0
ShowsQueues texts [] [] = Unit
ShowsQueues texts (s ∷ ss) (q ∷ qs) = ShowsQueue texts s q × ShowsQueues texts ss qs
ShowsQueues texts [] (q ∷ qs) = ⊥
ShowsQueues texts (s ∷ ss) [] = ⊥

abbrev pub IsNewQueue : Texts → QueueStruct → Type 0
IsNewQueue texts s = IsNewSet texts s.plugins.validate

ShowsQueue-Grows :
    {texts texts' : Texts} (s : QueueStruct) (q : Queue)
    → Grows texts texts'
    → ShowsQueue texts s q
    → ShowsQueue texts' s q
ShowsQueue-Grows s q g shows = record {
  scheduler_name = shows.scheduler_name;
  weight = shows.weight;
  max_size = shows.max_size;
  plugins = ShowsSet-Grows s.plugins.validate q.plugins.validate g shows.plugins;
}

pub ShowsQueues-Grows :
    {texts texts' : Texts} (ss : List QueueStruct) (qs : List Queue)
    → Grows texts texts'
    → ShowsQueues texts ss qs
    → ShowsQueues texts' ss qs
ShowsQueues-Grows [] [] g h = tt
ShowsQueues-Grows (s ∷ ss) (q ∷ qs) g h =
    (ShowsQueue-Grows s q g h.0, ShowsQueues-Grows ss qs g h.1)
ShowsQueues-Grows [] (q ∷ qs) g h = absurd h
ShowsQueues-Grows (s ∷ ss) [] g h = absurd h

pub copy_plugins-IsNewSet :
    (texts : Texts) (s : PluginsStruct) (p : Plugins)
    → ShowsSet texts s.validate p.validate
    → Yields
        (λ r. Grows texts r.1 × ShowsSet r.1 r.0.validate p.validate × IsNewSet texts r.0.validate)
        (copy_plugins s texts)
unfolding copy_plugins
copy_plugins-IsNewSet texts s p shows =
    Yields-bind (copy_plugin_set-IsNewSet texts s.validate p.validate shows)
      λ (v, texts') h. yields h

copy_queue-IsNewQueue :
    (texts : Texts) (s : QueueStruct) (q : Queue)
    → ShowsQueue texts s q
    → Yields
        (λ r. Grows texts r.1 × ShowsQueue r.1 r.0 q × IsNewQueue texts r.0)
        (copy_queue s texts)
unfolding copy_queue
copy_queue-IsNewQueue texts s q shows =
    Yields-bind (copy_plugins-IsNewSet texts s.plugins q.plugins shows.plugins)
      λ (p, texts') (g, same, new). yields (
        g,
        record {
          scheduler_name = shows.scheduler_name;
          weight = shows.weight;
          max_size = shows.max_size;
          plugins = same;
        },
        new,
      )

All-IsNewQueue :
    {texts texts' : Texts} (ss : List QueueStruct)
    → Grows texts texts'
    → All (IsNewQueue texts') ss
    → All (IsNewQueue texts) ss
All-IsNewQueue [] g h = tt
All-IsNewQueue (s ∷ ss) g h =
    let set = s.plugins.validate in
    ((IsNew-Grows set.enabled g h.0.0, IsNew-Grows set.disabled g h.0.1), All-IsNewQueue ss g h.1)

pub copy_queues-IsNewQueue :
    (texts : Texts) (ss : List QueueStruct) (qs : List Queue)
    → ShowsQueues texts ss qs
    → Yields
        (λ r. Grows texts r.1 × ShowsQueues r.1 r.0 qs × All (IsNewQueue texts) r.0)
        (copy_queues ss texts)
unfolding copy_queues
copy_queues-IsNewQueue texts [] [] h = yields (Grows-refl texts, tt, tt)
copy_queues-IsNewQueue texts (s ∷ ss) (q ∷ qs) (first, rest) =
    Yields-bind (copy_queue-IsNewQueue texts s q first) λ (c, texts1) (g, same, new).
      Yields-bind (copy_queues-IsNewQueue texts1 ss qs (ShowsQueues-Grows ss qs g rest))
        λ (cs, texts2) (h, sames, news).
          yields
            (Grows-trans g h, (ShowsQueue-Grows c q h same, sames), (new, All-IsNewQueue cs g news))
copy_queues-IsNewQueue texts [] (q ∷ qs) h = absurd h
copy_queues-IsNewQueue texts (s ∷ ss) [] h = absurd h
