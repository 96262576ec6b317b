-- ===== src/Kernel/Order/Table.antt =====
-- The order of the calls behind each handler of syscallHandlers (src/kernel/syscalls/syscall.c).
use honey_os.Base.{ℕ, refl, none, some, List, [], ◌∷◌, arith}
use honey_os.StringMap.{retrieve_string}
use honey_os.Strings.{strlen}
use honey_os.Memory.Pages.{request_memory, free}
use honey_os.Kernel.State.{KernelState, return_to, new_function}
use honey_os.Kernel.Services.{handle_get_service_id_syscall}
use honey_os.Kernel.Calls.{
  Handler, syscall_handlers, handle_subscribe_interrupt_syscall, handle_read_string_length_syscall,
  handle_discard_string_syscall, handle_request_memory_syscall, handle_get_physical_syscall,
  handle_free_syscall,
}
use honey_os.Kernel.Order.{Mark, IsRequest, InOrder, SameOrder-InOrder}
use honey_os.Kernel.Order.Changes.{SameOrder-others}
use honey_os.Kernel.Order.Handlers.{
  Keeps, InOrder-with_memory, Keeps-none, Keeps-some, Keeps-bind, InOrder-return_to,
  handle_create_event_syscall-InOrder, handle_get_event_syscall-Keeps,
  handle_fire_event_syscall-Keeps, handle_subscribe_event_syscall-Keeps, handle_await_syscall-Keeps,
}
use honey_os.Kernel.Order.Services.{
  InOrder-with_strings, handle_get_service_syscall-InOrder, handle_get_function_syscall-Keeps,
  handle_create_function_syscall-InOrder, handle_request_syscall-Keeps, handle_fork_syscall-Keeps,
  handle_stack_contains_syscall-Keeps, handle_lookup_symbol_syscall-Keeps,
}
use honey_os.Kernel.Machine.{Machine}
use honey_os.Kernel.Order.Machine.{
  handle_io_in_syscall-InOrder, handle_io_out_syscall-InOrder, handle_insert_string_syscall-Keeps,
  handle_read_string_syscall-Keeps, handle_load_from_initrd_syscall-Keeps,
}

-- A handler keeps the order, where its call was created.
abbrev pub HandlerKeeps : Handler → Type 0
HandlerKeeps handler =
    (b : Mark) (call : ℕ) (k : KernelState)
    → IsRequest k call
    → InOrder b k
    → Keeps b (handler call k)

module _ {b : Mark} where
  handle_subscribe_interrupt_syscall-InOrder :
      (call : ℕ) (k : KernelState)
      → InOrder b k
      → InOrder b (handle_subscribe_interrupt_syscall call k)
  unfolding handle_subscribe_interrupt_syscall new_function
  handle_subscribe_interrupt_syscall-InOrder call k =
      SameOrder-InOrder k (handle_subscribe_interrupt_syscall call k) (
        SameOrder-others k (handle_subscribe_interrupt_syscall call k) (omega arith) refl refl refl)

  handle_read_string_length_syscall-InOrder :
      (call : ℕ) (k : KernelState)
      → InOrder b k
      → InOrder b (handle_read_string_length_syscall call k)
  unfolding handle_read_string_length_syscall
  handle_read_string_length_syscall-InOrder call k order =
      elim (retrieve_string (k.syscall_at call).parameter0 k.strings)
        as (λ s.
          InOrder b (elim s [
            | none ↦ return_to call 0 k
            | some string ↦ return_to call (strlen string) k
          ])) [
            | none ↦ InOrder-return_to call _ k order
            | some string ↦ InOrder-return_to call _ k order
          ]

  handle_discard_string_syscall-InOrder :
      (call : ℕ) (k : KernelState) → InOrder b k → InOrder b (handle_discard_string_syscall call k)
  unfolding handle_discard_string_syscall
  handle_discard_string_syscall-InOrder call k order = InOrder-with_strings _ k order

  handle_request_memory_syscall-Keeps :
      (call : ℕ) (k : KernelState) → InOrder b k → Keeps b (handle_request_memory_syscall call k)
  unfolding handle_request_memory_syscall
  handle_request_memory_syscall-Keeps call k order =
      Keeps-bind (request_memory _ _ _ _ k.memory) _
        λ result e. Keeps-some (InOrder-return_to call _ _ (InOrder-with_memory _ k order))

  handle_get_physical_syscall-InOrder :
      (call : ℕ) (k : KernelState) → InOrder b k → InOrder b (handle_get_physical_syscall call k)
  unfolding handle_get_physical_syscall
  handle_get_physical_syscall-InOrder call k order =
      InOrder-return_to call _ _ (InOrder-with_memory _ k order)

  handle_free_syscall-Keeps :
      (call : ℕ) (k : KernelState) → InOrder b k → Keeps b (handle_free_syscall call k)
  unfolding handle_free_syscall
  handle_free_syscall-Keeps call k order =
      Keeps-bind (free _ _ k.memory) _ λ memory e. Keeps-some (InOrder-with_memory memory k order)

abbrev pub AllKeep : List Handler → Type 0
AllKeep [] = Unit
AllKeep (handler ∷ handlers) = HandlerKeeps handler × AllKeep handlers

pub syscall_handlers-AllKeep :
    (machine : Machine) (fuel : ℕ) (behind : List ℕ)
    → AllKeep (syscall_handlers machine fuel behind)
unfolding syscall_handlers handle_get_service_id_syscall
syscall_handlers-AllKeep machine fuel behind = (
  (λ b call k h order. Keeps-none),
  (
    (λ b call k h order. Keeps-some (handle_create_function_syscall-InOrder call k order)),
    (
      (λ b call k h order. handle_request_syscall-Keeps behind call k h order),
      (
        (λ b call k h order. Keeps-some (handle_io_in_syscall-InOrder machine call k order)),
        (
          (λ b call k h order. Keeps-some (handle_io_out_syscall-InOrder call k order)),
          (
            (λ b call k h order.
                handle_load_from_initrd_syscall-Keeps machine.image call k h order),
            (
              (λ b call k h order. Keeps-some (handle_get_service_syscall-InOrder call k order)),
              (
                (λ b call k h order. handle_get_function_syscall-Keeps call k order),
                (
                  (λ b call k h order.
                      Keeps-some (handle_subscribe_interrupt_syscall-InOrder call k order)),
                  (
                    (λ b call k h order.
                        Keeps-some (handle_create_event_syscall-InOrder call k order)),
                    (
                      (λ b call k h order. handle_get_event_syscall-Keeps call k order),
                      (
                        (λ b call k h order. handle_fire_event_syscall-Keeps behind call k order),
                        (
                          (λ b call k h order. handle_subscribe_event_syscall-Keeps call k order),
                          (
                            (λ b call k h order. Keeps-some (InOrder-return_to call _ k order)),
                            (
                              (λ b call k h order.
                                  handle_insert_string_syscall-Keeps machine call k order),
                              (
                                (λ b call k h order.
                                    Keeps-some
                                      (handle_read_string_length_syscall-InOrder call k order)),
                                (
                                  (λ b call k h order.
                                      handle_read_string_syscall-Keeps call k order),
                                  (
                                    (λ b call k h order.
                                        Keeps-some
                                          (handle_discard_string_syscall-InOrder call k order)),
                                    (
                                      (λ b call k h order.
                                          handle_request_memory_syscall-Keeps call k order),
                                      (
                                        (λ b call k h order.
                                            handle_lookup_symbol_syscall-Keeps call k order),
                                        (
                                          (λ b call k h order.
                                              handle_stack_contains_syscall-Keeps fuel call k
                                                order),
                                          (
                                            (λ b call k h order.
                                                handle_await_syscall-Keeps call k h order),
                                            (
                                              (λ b call k h order. Keeps-some (
                                                  handle_get_physical_syscall-InOrder call k
                                                    order)),
                                              (
                                                (λ b call k h order.
                                                    handle_fork_syscall-Keeps behind call k order),
                                                (
                                                  (λ b call k h order.
                                                      handle_free_syscall-Keeps call k order),
                                                  tt,
                                                ),
                                              ),
                                            ),
                                          ),
                                        ),
                                      ),
                                    ),
                                  ),
                                ),
                              ),
                            ),
                          ),
                        ),
                      ),
                    ),
                  ),
                ),
              ),
            ),
          ),
        ),
      ),
    ),
  ),
)
