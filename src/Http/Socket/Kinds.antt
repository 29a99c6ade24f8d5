-- ===== src/Http/Socket/Kinds.antt =====
-- internal/transport/http/mapper.go and commandKindString: a command is of the kind that its message named.
use wirechat_server.Common.{ℕ, ◌≡◌, inl, inr, arith, eq_iff, str_eq, Bool-cases}
use wirechat_server.Hub.Types.{Client, Command}
use wirechat_server.Proto.{Inbound}
use wirechat_server.Http.Mapper.{command, invited, inbound_to_command}
use wirechat_server.Http.Socket.{command_kind_string}

-- If the mapper makes a command of a message, then the name that is printed for the command's kind
-- is the type that the message came with.
pub command_kind_string-inbound_to_command :
    (x : Client) (m : Inbound) (now : ℕ) (c : Command)
    → inbound_to_command x m now ≡ command c
    → command_kind_string c ≡ m.type
unfolding inbound_to_command command_kind_string invited
command_kind_string-inbound_to_command x m now c e = elim (Bool-cases (str_eq m.type "join")) [
  | inl t0 ↦ ground (arith, eq_iff m.type "join")
  | inr f0 ↦ elim (Bool-cases (str_eq m.type "leave")) [
    | inl t1 ↦ ground (arith, eq_iff m.type "leave")
    | inr f1 ↦ elim (Bool-cases (str_eq m.type "msg")) [
      | inl t2 ↦ ground (arith, eq_iff m.type "msg")
      | inr f2 ↦ elim (Bool-cases (str_eq m.type "call.invite")) [
        | inl t3 ↦ ground (arith, eq_iff m.type "call.invite")
        | inr f3 ↦ elim (Bool-cases (str_eq m.type "call.accept")) [
          | inl t4 ↦ ground (arith, eq_iff m.type "call.accept")
          | inr f4 ↦ elim (Bool-cases (str_eq m.type "call.reject")) [
            | inl t5 ↦ ground (arith, eq_iff m.type "call.reject")
            | inr f5 ↦ elim (Bool-cases (str_eq m.type "call.join")) [
              | inl t6 ↦ ground (arith, eq_iff m.type "call.join")
              | inr f6 ↦ elim (Bool-cases (str_eq m.type "call.leave")) [
                | inl t7 ↦ ground (arith, eq_iff m.type "call.leave")
                | inr f7 ↦ elim (Bool-cases (str_eq m.type "call.end")) [
                  | inl t8 ↦ ground (arith, eq_iff m.type "call.end")
                  | inr f8 ↦ ground arith
                ]
              ]
            ]
          ]
        ]
      ]
    ]
  ]
]
