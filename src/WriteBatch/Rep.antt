-- ===== src/WriteBatch/Rep.antt =====
-- `WriteBatch::Rep` of engine/lsmtree/src/db/write_batch_internal.h.
use mizu.Base.{List}
use mizu.Base.Order.{Bytes}

pub data OperationType : Type 0 where
  put delete : OperationType

pub record Operation : Type 0 where
  pub type : OperationType
  pub key : Bytes
  pub value : Bytes

pub record WriteBatch : Type 0 where
  pub operations : List Operation
