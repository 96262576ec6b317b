-- ===== src/Kernel/Order/Services.antt =====
-- The order of the calls behind the handlers of services (src/kernel/service/serviceSyscalls.c).
use honey_os.Strings.{text_at}
use honey_os.Lists.{list_count}
use honey_os.StringMap.{insert_string}
use honey_os.Base.{drop, ℕ, refl, inl, inr, Option, none, some, List, ◌==◌, if◌then◌else◌, arith}
use honey_os.StringMap.{retrieve_string, Root}
use honey_os.Lists.{list_add, list_get}
use honey_os.Kernel.State.{ServiceFunction, KernelState, return_to, with_service, new_function}
use honey_os.Kernel.Schedule.{schedule_function}
use honey_os.Kernel.Services.{
  return_found, service_index, function_index, handle_get_service_syscall, find_symbol,
  handle_get_function_syscall, handle_create_function_syscall, handle_request_syscall,
  handle_lookup_symbol_syscall, handle_stack_contains_syscall, handle_fork_syscall, chain_contains,
}
use honey_os.Kernel.Order.{Mark, IsRequest, IsRequest-IsCall, InOrder, SameOrder-InOrder}
use honey_os.Kernel.Order.Changes.{SameOrder-others, SameOrder-new_function, SameOrder-with_service}
use honey_os.Kernel.Order.Handlers.{
  Keeps, Keeps-none, Keeps-some, Keeps-if, Keeps-bind, InOrder-return_to, InOrder-with_syscall,
  schedule_function-Keeps,
}

module _ {b : Mark} where
  return_found-InOrder :
      (call : ℕ) (found : Option ℕ) (k : KernelState)
      → InOrder b k
      → InOrder b (return_found call found k)
  unfolding return_found
  return_found-InOrder call none k order = order
  return_found-InOrder call (some i) k order = InOrder-return_to call i k order

  pub handle_get_service_syscall-InOrder :
      (call : ℕ) (k : KernelState) → InOrder b k → InOrder b (handle_get_service_syscall call k)
  unfolding handle_get_service_syscall
  handle_get_service_syscall-InOrder call k order =
      elim (retrieve_string (k.syscall_at call).parameter0 k.strings)
        as (λ s. InOrder b (elim s [
          | none ↦ k
          | some name ↦ return_found call (service_index name 0 k.services k) k
        ])) [ none ↦ order | some name ↦ return_found-InOrder call _ k order ]

  pub handle_get_function_syscall-Keeps :
      (call : ℕ) (k : KernelState) → InOrder b k → Keeps b (handle_get_function_syscall call k)
  unfolding handle_get_function_syscall
  handle_get_function_syscall-Keeps call k order =
      go (retrieve_string (k.syscall_at call).parameter1 k.strings)
    where
      go :
          (s : Option (List ℕ))
          → Keeps b (elim s [
            | none ↦ some k
            | some name ↦
                if list_get k.services (k.syscall_at call).parameter0 == 0
                then none
                else some (
                    return_found call
                      (function_index name 0
                        (k.service_at
                          (list_get k.services (k.syscall_at call).parameter0)).functions
                        k)
                      k)
          ])
      go none = Keeps-some order
      go (some name) = Keeps-if _ _ _ Keeps-none (Keeps-some (return_found-InOrder call _ k order))

  pub handle_create_function_syscall-InOrder :
      (call : ℕ) (k : KernelState) → InOrder b k → InOrder b (handle_create_function_syscall call k)
  unfolding handle_create_function_syscall
  handle_create_function_syscall-InOrder call k order =
      elim (retrieve_string (k.syscall_at call).parameter0 k.strings)
        as (λ s. InOrder b (elim s [
          | none ↦ k
          | some name ↦
              let service = (k.syscall_at call).service in
              let function : ServiceFunction = record {
                name = name;
                address = (k.syscall_at call).parameter1;
                service = service;
              } in
              let functions = (k.service_at service).functions in
              let k₁ = return_to call (list_count functions) (new_function function k) in
              let added = list_add functions k.next_object in
              with_service service (record (k₁.service_at service) { functions = added }) k₁
        ])) [
          | none ↦ order
          | some name ↦ SameOrder-InOrder _ _ (SameOrder-with_service _ _ _) (
              InOrder-return_to call _ _ (SameOrder-InOrder k _ (SameOrder-new_function _ k) order))
        ]

  pub handle_request_syscall-Keeps :
      (behind : List ℕ) (call : ℕ) (k : KernelState)
      → IsRequest k call
      → InOrder b k
      → Keeps b (handle_request_syscall behind call k)
  unfolding handle_request_syscall
  handle_request_syscall-Keeps behind call k h order = Keeps-if _ _ _ (Keeps-some order) (
      Keeps-if _ _ _ (Keeps-some order) (
        Keeps-bind (schedule_function _ call _ k) _ λ k₁ e. Keeps-some (
          InOrder-with_syscall call _ k₁ refl refl (λ r. r)
            ((schedule_function-Keeps _ call _ k (inr (IsRequest-IsCall h)) order).in_order k₁ e))))

  pub handle_fork_syscall-Keeps :
      (behind : List ℕ) (call : ℕ) (k : KernelState)
      → InOrder b k
      → Keeps b (handle_fork_syscall behind call k)
  unfolding handle_fork_syscall
  handle_fork_syscall-Keeps behind call k order = schedule_function-Keeps _ 0 _ k (inl refl) order

  pub handle_stack_contains_syscall-Keeps :
      (fuel call : ℕ) (k : KernelState)
      → InOrder b k
      → Keeps b (handle_stack_contains_syscall fuel call k)
  unfolding handle_stack_contains_syscall
  handle_stack_contains_syscall-Keeps fuel call k order =
      Keeps-bind (chain_contains fuel (k.syscall_at call).parameter0 call k) _
        λ found e. Keeps-some (InOrder-return_to call _ k order)

  -- Another root of the strings, or another memory.
  pub InOrder-with_strings :
      (strings : Root) (k : KernelState) → InOrder b k → InOrder b (record k { strings = strings })
  InOrder-with_strings strings k =
      SameOrder-InOrder k (record k { strings = strings })
        (SameOrder-others k (record k { strings = strings }) (omega arith) refl refl refl)

  pub handle_lookup_symbol_syscall-Keeps :
      (call : ℕ) (k : KernelState) → InOrder b k → Keeps b (handle_lookup_symbol_syscall call k)
  unfolding handle_lookup_symbol_syscall
  handle_lookup_symbol_syscall-Keeps call k order =
      Keeps-if _ _ _ Keeps-none
        (elim (find_symbol (k.syscall_at call).parameter1
            (k.service_at (list_get k.services (k.syscall_at call).parameter0)).symbol_table)
          as (λ s. Keeps b (elim s [
            | none ↦ some k
            | some entry ↦
                let object = k.service_at (list_get k.services (k.syscall_at call).parameter0) in
                let name = text_at (drop entry.name object.string_table) in
                let (id, strings) = insert_string name k.strings in
                some (return_to call id (record k { strings = strings }))
          ])) [
            | none ↦ Keeps-some order
            | some entry ↦ Keeps-some (InOrder-return_to call _ _ (InOrder-with_strings _ k order))
          ])
