-- ===== src/Redis.antt =====
-- The hiredis client library, which server/src/cache_manager.cpp calls: a parameter. Pointers it gives
-- out are numbers, a null pointer is `none`, and a return code is `true` where it is REDIS_OK.
pub mod Books
use qq_copy.Base.{ℕ, List, Bool, Option}
use qq_copy.Base.Int.{ℤ}

-- A variable argument of a command.
pub data Argument : Type 0 where
  string_argument : List ℕ → Argument
  int_argument : ℤ → Argument

-- What stands at the place of the variable arguments of `redis_command`: they themselves, or one object
-- of type `va_list` that holds them.
pub data Arguments : Type 0 where
  arguments : List Argument → Arguments
  va_list : List Argument → Arguments

-- A reply at its address, with its elements where it is an array.
mutual
  pub data Reply : Type 0 where
    reply : ℕ → Body → Reply

  pub data Body : Type 0 where
    reply_string : List ℕ → Body
    reply_array : Elements → Body
    reply_integer : ℤ → Body
    reply_nil reply_status reply_error : Body

  pub data Elements : Type 0 where
    no_elements : Elements
    element : Reply → Elements → Elements

pub record Redis : Type 1 where
  pub World : Type 0
  -- the context, and whether its `err` is zero
  pub redis_connect : List ℕ → ℤ → World → (Option ℕ × Bool) × World
  pub redis_free : ℕ → World → World
  pub redis_command : ℕ → List ℕ → Arguments → World → Option Reply × World
  pub free_reply_object : Reply → World → World
  pub redis_append_command : ℕ → List ℕ → World → Bool × World
  pub redis_get_reply : ℕ → World → (Bool × Option Reply) × World
