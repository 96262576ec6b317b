-- ===== src/Kernel/Order/Machine.antt =====
-- The order of the calls behind the handlers of Kernel/Machine.antt, the loader of programs among them.
use mathlib.Core.Path.{subst}
use mathlib.Core.Option.{some-injective}
use honey_os.Base.{
  ℕ, ◌≡◌, refl, inr, sym, Bool, true, false, Option, none, some, List, ◌==◌, ◌%◌, ◌^◌, not,
  if◌then◌else◌, arith, ◌>>=◌, drop,
}
use honey_os.StringMap.{Text, insert_string, retrieve_string}
use honey_os.Memory.Mapping.{get_physical_address}
use honey_os.Memory.Pages.{get_pages_count, kernel_map_physical_count, unmap_page}
use honey_os.Kernel.State.{KernelState, return_to, with_memory, new_function, SymbolEntry}
use honey_os.Kernel.Events.{fire_event}
use honey_os.Kernel.Services.{find_function}
use honey_os.Kernel.Load.Header.{elf_header, load_tables}
use honey_os.Kernel.Load.{
  main_name, Image, fill_space, new_service, complete_service, load_elf, start_main, find_program,
  load_program, handle_load_from_initrd_syscall,
}
use honey_os.Kernel.Machine.{
  Machine, handle_io_in_syscall, handle_io_out_syscall, handle_insert_string_syscall,
  handle_read_string_syscall,
}
use honey_os.Kernel.Order.{
  InOrder, InOrder-marked, InOrder-IsRequest, Mark, IsSuper, IsRequest, IsRequest-IsCall,
  SameOrder-InOrder,
}
use honey_os.Kernel.Order.Changes.{SameOrder-others}
use honey_os.Kernel.Order.Handlers.{
  Keeps, InOrder-with_memory, Keeps-some, Keeps-if, Keeps-bind, InOrder-if, InOrder-return_to,
  InOrder-with_syscall, schedule_function-Keeps, fire_event-Keeps,
}
use honey_os.Kernel.Order.Services.{InOrder-with_strings}

-- The state that comes with other results is in order, where there is one.
record Returns {A : Type 0} (b : Mark) (state : A → KernelState) (result : Option A) : Type 0 where
  in_order : (a : A) → result ≡ some a → InOrder b (state a)

module _ {A : Type 0} {b : Mark} {state : A → KernelState} where
  Returns-none : Returns b state none
  Returns-none = record { in_order = λ a e. cc }

  Returns-some : {a : A} → InOrder b (state a) → Returns b state (some a)
  Returns-some order = record {
    in_order = λ a' e. subst (λ x. InOrder b (state x)) (some-injective _ _ e) order;
  }

  Returns-bind :
      {B : Type 0} (m : Option B) (f : B → Option A)
      → ((x : B) → m ≡ some x → Returns b state (f x))
      → Returns b state (m >>= f)
  Returns-bind none f h = Returns-none
  Returns-bind (some x) f h = h x refl

  Returns-if :
      (test : Bool) (first second : Option A)
      → Returns b state first
      → Returns b state second
      → Returns b state (if test then first else second)
  Returns-if true first second x y = x
  Returns-if false first second x y = y

-- The kernel has no part in what is written to a port.
handle_io_out_syscall-state : (call : ℕ) (k : KernelState) → (handle_io_out_syscall call k).1 ≡ k
unfolding handle_io_out_syscall
handle_io_out_syscall-state call k = ground arith

module _ {b : Mark} where
  pub handle_io_in_syscall-InOrder :
      (machine : Machine) (call : ℕ) (k : KernelState)
      → InOrder b k
      → InOrder b (handle_io_in_syscall machine call k)
  unfolding handle_io_in_syscall
  handle_io_in_syscall-InOrder machine call k order =
      let size = (k.syscall_at call).parameter0 in
      let returned = λ (value : ℕ). InOrder-return_to call value k order in
      let port = (k.syscall_at call).parameter1 % 2 ^ 16 in
      InOrder-if (size == 1) _ _ (returned (machine.port_in 1 port)) (
        InOrder-if (size == 2) _ _ (returned (machine.port_in 2 port))
          (InOrder-if (size == 4) _ _ (returned (machine.port_in 4 port)) order))

  pub handle_io_out_syscall-InOrder :
      (call : ℕ) (k : KernelState) → InOrder b k → InOrder b (handle_io_out_syscall call k).1
  unfolding handle_io_out_syscall
  handle_io_out_syscall-InOrder call k order =
      subst (λ x. InOrder b x) (sym (handle_io_out_syscall-state call k)) order

  pub handle_insert_string_syscall-Keeps :
      (machine : Machine) (call : ℕ) (k : KernelState)
      → InOrder b k
      → Keeps b (handle_insert_string_syscall machine call k)
  unfolding handle_insert_string_syscall
  handle_insert_string_syscall-Keeps machine call k order =
      let place =
        get_physical_address (k.service_at (k.syscall_at call).service).space
          (k.syscall_at call).parameter0 k.memory in
      Keeps-if ((k.syscall_at call).parameter0 == 0) _ _ (Keeps-some order) (
        Keeps-bind (kernel_map_physical_count place.0 2 place.1) _ λ mapped e.
          Keeps-bind (unmap_page mapped.0 mapped.1) _ λ m₃ e'. Keeps-some (
            InOrder-return_to call _ _ (InOrder-with_memory m₃ _ (InOrder-with_strings _ k order))))

  handle_read_string_syscall-Returns :
      (call : ℕ) (k : KernelState)
      → InOrder b k
      → Returns b (λ r. r.1) (handle_read_string_syscall call k)
  unfolding handle_read_string_syscall
  handle_read_string_syscall-Returns call k order =
      let place =
        get_physical_address (k.service_at (k.syscall_at call).service).space
          (k.syscall_at call).parameter1 k.memory in
      Returns-bind (kernel_map_physical_count place.0 2 place.1) _ λ mapped e.
        Returns-if ((k.syscall_at call).parameter0 == 0) _ _
          (Returns-some (InOrder-with_memory _ k order))
          (Returns-bind (unmap_page mapped.0 mapped.1) _
            λ m₃ e'. Returns-some (InOrder-with_memory m₃ k order))

  new_service-InOrder :
      (image : Image) (name : Text) (directory : ℕ) (k : KernelState)
      → InOrder b k
      → InOrder b (new_service image name directory k)
  unfolding new_service
  new_service-InOrder image name directory k =
      SameOrder-InOrder k (new_service image name directory k)
        (SameOrder-others k (new_service image name directory k) (omega arith) refl refl refl)

  complete_service-InOrder :
      (service entry : ℕ) (table : List SymbolEntry) (strings : List ℕ) (k : KernelState)
      → InOrder b k
      → InOrder b (complete_service service entry table strings k)
  unfolding complete_service new_function
  complete_service-InOrder service entry table strings k =
      SameOrder-InOrder k (complete_service service entry table strings k) (
        SameOrder-others k (complete_service service entry table strings k) (omega arith) refl refl
          refl)

  load_elf-Returns :
      (image : Image) (elf : List ℕ) (name : Text) (k : KernelState)
      → InOrder b k
      → Returns b (λ r. r.2) (load_elf image elf name k)
  unfolding load_elf
  load_elf-Returns image elf name k order = Returns-bind (elf_header elf) _ λ header e.
      Returns-bind (get_pages_count 1 k.memory) _ λ pages e₁.
        let name_hash = (insert_string name k.strings).0 in
        let k₀ = new_service image name pages.0 (with_memory pages.1 k) in
        let made =
          new_service-InOrder image name pages.0 (with_memory pages.1 k)
            (InOrder-with_memory pages.1 k order) in
        let fired = fire_event-Keeps image.load_initrd_event name_hash 0 image.behind k₀ made in
        Returns-bind (fire_event image.load_initrd_event name_hash 0 image.behind k₀) _ λ k₁ e₂.
          Returns-bind (fill_space image elf header k.next_object k₁.memory) _ λ filled e₃.
            Returns-bind (load_tables elf header) _ λ tables e₄. Returns-some (
              complete_service-InOrder k.next_object header.entry_position tables.0 tables.1
                (with_memory filled.1 k₁) (InOrder-with_memory filled.1 k₁ (fired.in_order k₁ e₂)))

  start_main-Keeps :
      (image : Image) (service responding_to : ℕ) (k : KernelState)
      → IsSuper k responding_to
      → InOrder b k
      → Keeps b (start_main image service responding_to k)
  unfolding start_main
  start_main-Keeps image service responding_to k =
      schedule_function-Keeps
        (k.function_at (find_function main_name (k.service_at service).functions k)) responding_to
        image.behind k

module _ {b : Mark} where
  load_program-Returns :
      (image : Image) (name : Text) (responding_to : ℕ) (initialize : Bool) (k : KernelState)
      → IsRequest k responding_to
      → InOrder b k
      → Returns b (λ r. r.1) (load_program image name responding_to initialize k)
  unfolding load_program
  load_program-Returns image name responding_to initialize k h order =
      loaded (find_program image name)
    where
      loaded :
          (found : Option ℕ)
          → Returns {A = ℕ × KernelState} b
              (λ r. r.1)
              (elim found [
                | none ↦ if initialize then none else some (0, k)
                | some position ↦ load_elf image (drop position image.initrd) name k >>= λ r.
                    (if initialize then start_main image r.0 responding_to r.2 else some r.2)
                    >>= λ k₂. some (r.0, k₂)
              ])
      loaded none = Returns-if initialize _ _ Returns-none (Returns-some order)
      loaded (some position) =
          let elf = drop position image.initrd in
          Returns-bind (load_elf image elf name k) _ λ r e.
            let after = (load_elf-Returns image elf name k order).in_order r e in
            let still = InOrder-IsRequest responding_to k r.2 h (
              (load_elf-Returns image elf name k
                  (InOrder-marked responding_to k h.created order)).in_order
                r e) in
            let started =
              Keeps-if initialize _ _
                (start_main-Keeps image r.0 responding_to r.2 (inr (IsRequest-IsCall still)) after)
                (Keeps-some after) in
            Returns-bind (if initialize then start_main image r.0 responding_to r.2 else some r.2) _
              λ k₂ e₂. Returns-some (started.in_order k₂ e₂)

  pub handle_load_from_initrd_syscall-Keeps :
      (image : Image) (call : ℕ) (k : KernelState)
      → IsRequest k call
      → InOrder b k
      → Keeps b (handle_load_from_initrd_syscall image call k)
  unfolding handle_load_from_initrd_syscall
  handle_load_from_initrd_syscall-Keeps image call k h order =
      let initialize = not ((k.syscall_at call).parameter1 == 0) in
      Keeps-bind (retrieve_string (k.syscall_at call).parameter0 k.strings) _ λ name e.
        Keeps-bind (load_program image name call initialize k) _ λ r e₁.
          let after = (load_program-Returns image name call initialize k h order).in_order r e₁ in
          let k₂ = if r.0 == 0 then r.1 else return_to call (r.1.service_at r.0).id r.1 in
          Keeps-some (
            InOrder-with_syscall call
              (record (k₂.syscall_at call) { avoid_reschedule = initialize }) k₂ refl refl (λ r. r)
              (InOrder-if (r.0 == 0) r.1 _ after (InOrder-return_to call _ r.1 after)))

  pub handle_read_string_syscall-Keeps :
      (call : ℕ) (k : KernelState)
      → InOrder b k
      → Keeps b (handle_read_string_syscall call k >>= λ result. some result.1)
  handle_read_string_syscall-Keeps call k order =
      Keeps-bind (handle_read_string_syscall call k) _
        λ result e. Keeps-some ((handle_read_string_syscall-Returns call k order).in_order result e)
