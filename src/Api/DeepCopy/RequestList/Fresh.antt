-- ===== src/Api/DeepCopy/RequestList/Fresh.antt =====
-- A copy of a list of requests shows the same requests and stands in arrays of its own.
use kombiner.Prelude.{
  ℕ, ◌≡◌, refl, sym, subst, List, [], Option, none, some, arith, All, Yields, yields, Yields-bind,
}
use kombiner.Api.Placement.{ObjectMeta, PlacementRequest}
use kombiner.Api.DeepCopy.{RequestStruct}
use kombiner.Api.DeepCopy.Fresh.{entries, get_elem?-last}
use kombiner.Api.DeepCopy.Configuration.Grows.{Grows, IsNew, Grows-refl, Grows-last, entries-Grows}
use kombiner.Api.DeepCopy.RequestList.{RequestListStruct, ListMemory, copy_items, copy_request_list}
use kombiner.Api.DeepCopy.RequestList.Requests.{
  MemoryGrows, IsNewRequest, ShowsAll, ShowsAll-MemoryGrows, copy_requests-IsNewRequest,
}

module _ (copy_meta : ObjectMeta → ObjectMeta) (law : (m : ObjectMeta) → copy_meta m ≡ m) where
  record NewItems (mem : ListMemory) (prs : List PlacementRequest) (c : Option ℕ × ListMemory)
      : Type 0 where
    memory : MemoryGrows mem.memory c.1.memory
    requests : Grows mem.requests c.1.requests
    copies : List RequestStruct
    there : entries c.1.requests c.0 ≡ some copies
    shows : ShowsAll c.1.memory copies prs
    new : IsNew mem.requests c.0
    news : All (IsNewRequest mem.memory) copies

  copy_items-NewItems :
      (mem : ListMemory) (s : Option ℕ) (rs : List RequestStruct) (prs : List PlacementRequest)
      → entries mem.requests s ≡ some rs
      → ShowsAll mem.memory rs prs
      → Yields (NewItems mem prs) (copy_items copy_meta s mem)
  unfolding copy_items
  copy_items-NewItems mem none rs prs e h = yields (record {
    memory = record {
      bindings = Grows-refl mem.memory.bindings;
      results = Grows-refl mem.memory.results;
    };
    requests = Grows-refl mem.requests;
    copies = [];
    there = refl;
    shows = let same : [] ≡ rs = cc in subst (λ xs. ShowsAll mem.memory xs prs) (sym same) h;
    new = λ k at. absurd (cc);
    news = tt;
  })
  copy_items-NewItems mem (some k) rs prs e h = rw e (
      Yields-bind (copy_requests-IsNewRequest copy_meta law mem.memory rs prs h)
        λ (cs, memory) (g, shows, news). yields (record {
          memory = g;
          requests = Grows-last mem.requests cs;
          copies = cs;
          there = get_elem?-last mem.requests cs;
          shows = shows;
          new = λ j at. ground arith;
          news = news;
        }))

  -- The memory shows the struct as the list of requests.
  pub record ShowsList {M : Type 0} (mem : ListMemory) (l : RequestListStruct M)
      (prs : List PlacementRequest) : Type 0 where
    pub structs : List RequestStruct
    pub there : entries mem.requests l.items ≡ some structs
    pub shows : ShowsAll mem.memory structs prs

  -- What the copy of a list gives: the same requests, in slices that are nil or new.
  pub record CopiedList {M : Type 0} (mem : ListMemory) (l : RequestListStruct M)
      (prs : List PlacementRequest) (c : RequestListStruct M × ListMemory) : Type 0 where
    pub same : ShowsList c.1 c.0 prs
    pub kept : ShowsList c.1 l prs
    pub items : IsNew mem.requests c.0.items
    pub news : All (IsNewRequest mem.memory) same.structs

  -- If the library's copy of a request's metadata equals it, the deep copy of a list of requests
  -- returns: the copy shows the same requests in order, the original still does, and every slice of
  -- the copy, its requests' included, is nil or a new array.
  pub copy_request_list-CopiedList :
      {M : Type 0} (copy_list_meta : M → M) (mem : ListMemory) (l : RequestListStruct M)
      (prs : List PlacementRequest)
      → ShowsList mem l prs
      → Yields (CopiedList mem l prs) (copy_request_list copy_meta copy_list_meta l mem)
  unfolding copy_request_list
  copy_request_list-CopiedList copy_list_meta mem l prs s =
      Yields-bind (copy_items-NewItems mem l.items s.structs prs s.there s.shows) λ (items, mem') c.
        yields (record {
          same = record { structs = c.copies; there = c.there; shows = c.shows };
          kept = record {
            structs = s.structs;
            there = entries-Grows l.items s.structs c.requests s.there;
            shows = ShowsAll-MemoryGrows s.structs prs c.memory s.shows;
          };
          items = c.new;
          news = c.news;
        })
