-- ===== src/Api/DeepCopy/Configuration/Fresh.antt =====
-- A copy of a configuration shows the same configuration and stands in arrays of its own.
use kombiner.Prelude.{
  ℕ, ◌≡◌, refl, sym, subst, List, [], Option, none, some, arith, All, Yields, yields, Yields-bind,
}
use kombiner.Api.Config.{Queue, Configuration}
use kombiner.Api.DeepCopy.Fresh.{entries, get_elem?-last}
use kombiner.Api.DeepCopy.Configuration.{
  QueueStruct, ConfigurationStruct, ConfigurationMemory, copy_queue_slice, copy_configuration,
}
use kombiner.Api.DeepCopy.Configuration.Grows.{
  Grows, IsNew, Grows-refl, Grows-trans, Grows-last, entries-Grows, IsNew-Grows,
}
use kombiner.Api.DeepCopy.Configuration.Queues.{
  ShowsSet, IsNewSet, ShowsSet-Grows, ShowsQueues, IsNewQueue, ShowsQueues-Grows,
  copy_plugins-IsNewSet, copy_queues-IsNewQueue,
}

-- The memory shows the struct as the configuration, with these structs of queues.
pub record ShowsConfiguration (mem : ConfigurationMemory) (c : ConfigurationStruct)
    (cfg : Configuration) : Type 0 where
  pub structs : List QueueStruct
  pub there : entries mem.queues c.queues ≡ some structs
  pub queues : ShowsQueues mem.texts structs cfg.queues
  pub fairness_algorithm : c.fairness_algorithm ≡ cfg.fairness_algorithm
  pub plugins : ShowsSet mem.texts c.plugins.validate cfg.plugins.validate

-- Every slice of the configuration is nil or new, those of its queues included.
pub record IsNewConfiguration (mem mem' : ConfigurationMemory) (c : ConfigurationStruct)
    : Type 0 where
  pub queues : IsNew mem.queues c.queues
  pub structs :
      (ss : List QueueStruct)
      → entries mem'.queues c.queues ≡ some ss
      → All (IsNewQueue mem.texts) ss
  pub plugins : IsNewSet mem.texts c.plugins.validate

record SliceCopied (mem : ConfigurationMemory) (qs : List Queue)
    (r : Option ℕ × ConfigurationMemory) : Type 0 where
  texts : Grows mem.texts r.1.texts
  queues : Grows mem.queues r.1.queues
  copies : List QueueStruct
  there : entries r.1.queues r.0 ≡ some copies
  shows : ShowsQueues r.1.texts copies qs
  new : IsNew mem.queues r.0
  news : All (IsNewQueue mem.texts) copies

copy_queue_slice-SliceCopied :
    (mem : ConfigurationMemory) (s : Option ℕ) (ss : List QueueStruct) (qs : List Queue)
    → entries mem.queues s ≡ some ss
    → ShowsQueues mem.texts ss qs
    → Yields (SliceCopied mem qs) (copy_queue_slice s mem)
unfolding copy_queue_slice
copy_queue_slice-SliceCopied mem none ss qs e h = yields (record {
  texts = Grows-refl mem.texts;
  queues = Grows-refl mem.queues;
  copies = [];
  there = refl;
  shows = let same : [] ≡ ss = cc in subst (λ xs. ShowsQueues mem.texts xs qs) (sym same) h;
  new = λ k e. absurd (cc);
  news = tt;
})
copy_queue_slice-SliceCopied mem (some k) ss qs e h = rw e (
    Yields-bind (copy_queues-IsNewQueue mem.texts ss qs h) λ (cs, texts') (g, shows, news).
      yields (record {
        texts = g;
        queues = Grows-last mem.queues cs;
        copies = cs;
        there = get_elem?-last mem.queues cs;
        shows = shows;
        new = λ j e. ground arith;
        news = news;
      }))

-- The deep copy of a configuration in memory returns: the copy shows the same configuration, the
-- original still does, and every slice of the copy, its queues' included, is nil or a new array.
pub copy_configuration-IsNewConfiguration :
    (mem : ConfigurationMemory) (c : ConfigurationStruct) (cfg : Configuration)
    → ShowsConfiguration mem c cfg
    → Yields
        (λ r.
          ShowsConfiguration r.1 r.0 cfg
          × ShowsConfiguration r.1 c cfg
          × IsNewConfiguration mem r.1 r.0)
        (copy_configuration c mem)
unfolding copy_configuration
copy_configuration-IsNewConfiguration mem c cfg s =
    Yields-bind (copy_queue_slice-SliceCopied mem c.queues s.structs cfg.queues s.there s.queues)
      λ (queues, mem1) q.
        let validate = cfg.plugins.validate in
        let shown = ShowsSet-Grows c.plugins.validate validate q.texts s.plugins in
        Yields-bind (copy_plugins-IsNewSet mem1.texts c.plugins cfg.plugins shown)
          λ (plugins, texts) (g, same, new).
            let all = Grows-trans q.texts g in
            let set = plugins.validate in
            yields (
              record {
                structs = q.copies;
                there = q.there;
                queues = ShowsQueues-Grows q.copies cfg.queues g q.shows;
                fairness_algorithm = s.fairness_algorithm;
                plugins = same;
              },
              record {
                structs = s.structs;
                there = entries-Grows c.queues s.structs q.queues s.there;
                queues = ShowsQueues-Grows s.structs cfg.queues all s.queues;
                fairness_algorithm = s.fairness_algorithm;
                plugins = ShowsSet-Grows c.plugins.validate validate all s.plugins;
              },
              record {
                queues = q.new;
                structs = λ ss e.
                    subst (All (IsNewQueue mem.texts))
                      (let t = q.there in let same : q.copies ≡ ss = cc in same) q.news;
                plugins =
                    (IsNew-Grows set.enabled q.texts new.0, IsNew-Grows set.disabled q.texts new.1);
              },
            )
