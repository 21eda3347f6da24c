-- ===== src/Command.antt =====
-- Command<Message> of src/lib.rs: inert descriptions of finite work, and their flattening. A
-- command's boxed mapper is a function into the Component's Message payloads.
use samara.Prelude.{ℕ, Option, List, [], ◌∷◌, ◌++◌, All, All-append}
use samara.Values.{TypeId, TypeName, ProgramRef, Duration, CapabilityToken, EffectOutcome}
use samara.Ids.{ComponentId, PortId}

module _ (V : Type 0) where
  pub record EffectCommand : Type 0 where
    pub capability : CapabilityToken
    pub intent_type : TypeId
    pub intent_type_name : TypeName
    pub intent : V
    pub mapper : Option (EffectOutcome V → V)

  pub record SendCommand : Type 0 where
    pub target : ComponentId
    pub target_program : ProgramRef
    pub message_type : TypeId
    pub message_type_name : TypeName
    pub message : V

  pub record NotifyCommand : Type 0 where
    pub port : PortId
    pub port_program : ProgramRef
    pub protocol_type : TypeId
    pub notification_type_name : TypeName
    pub message : V

  -- `into_parts` takes the correlation that the runtime chose.
  pub record RequestCommand : Type 0 where
    pub port : PortId
    pub port_program : ProgramRef
    pub protocol_type : TypeId
    pub request_type_name : TypeName
    pub reply_type : TypeId
    pub reply_type_name : TypeName
    pub into_message : ℕ → V
    pub mapper : V → V

  pub record ReplyCommand : Type 0 where
    pub reply_type : TypeId
    pub reply_type_name : TypeName
    pub correlation : ℕ
    pub reply : V

  mutual
    pub data Command : Type 0 where
      nothing : Command
      effect : EffectCommand → Command
      send : SendCommand → Command
      notify : NotifyCommand → Command
      request : RequestCommand → Command
      reply : ReplyCommand → Command
      after : Duration → V → Command
      batch : Commands → Command

    pub data Commands : Type 0 where
      nil : Commands
      cons : Command → Commands → Commands

module _ {V : Type 0} where
  unfoldable mutual
    pub into_declarations : Command V → List (Command V)
    into_declarations Command.nothing = []
    into_declarations (Command.batch commands) = append_all commands
    into_declarations (Command.effect c) = Command.effect c ∷ []
    into_declarations (Command.send c) = Command.send c ∷ []
    into_declarations (Command.notify c) = Command.notify c ∷ []
    into_declarations (Command.request c) = Command.request c ∷ []
    into_declarations (Command.reply c) = Command.reply c ∷ []
    into_declarations (Command.after delay message) = Command.after delay message ∷ []

    pub append_all : Commands V → List (Command V)
    append_all Commands.nil = []
    append_all (Commands.cons c cs) = into_declarations c ++ append_all cs

  -- What `interpret_command` relies on when it calls the other two kinds unreachable.
  abbrev pub IsDeclaration : Command V → Type 0
  IsDeclaration Command.nothing = ⊥
  IsDeclaration (Command.batch commands) = ⊥
  IsDeclaration (Command.effect c) = Unit
  IsDeclaration (Command.send c) = Unit
  IsDeclaration (Command.notify c) = Unit
  IsDeclaration (Command.request c) = Unit
  IsDeclaration (Command.reply c) = Unit
  IsDeclaration (Command.after delay message) = Unit

  mutual
    unfolding into_declarations append_all

    declared : (c : Command V) → All IsDeclaration (into_declarations c)
    declared Command.nothing = tt
    declared (Command.batch commands) = append_all-IsDeclaration commands
    declared (Command.effect c) = (tt, tt)
    declared (Command.send c) = (tt, tt)
    declared (Command.notify c) = (tt, tt)
    declared (Command.request c) = (tt, tt)
    declared (Command.reply c) = (tt, tt)
    declared (Command.after delay message) = (tt, tt)

    append_all-IsDeclaration : (cs : Commands V) → All IsDeclaration (append_all cs)
    append_all-IsDeclaration Commands.nil = tt
    append_all-IsDeclaration (Commands.cons c cs) =
        All-append IsDeclaration (into_declarations c) (append_all cs) (declared c)
          (append_all-IsDeclaration cs)

  pub into_declarations-IsDeclaration : (c : Command V) → All IsDeclaration (into_declarations c)
  into_declarations-IsDeclaration c = declared c
