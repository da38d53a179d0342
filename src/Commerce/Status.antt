-- ===== src/Commerce/Status.antt =====
-- The status enumerations of prisma/schema/commerce.prisma and prisma/schema/supplier.prisma.
use all_in_one_v2_api.Base.{Enum}

pub data OrderStatus : Type 0 where
  pending processing partially_fulfilled fulfilled cancelled refunded rejected : OrderStatus

instance abbrev pub order_status : Enum OrderStatus
order_status = record {
  place = elim [
    | OrderStatus.pending ↦ 0
    | OrderStatus.processing ↦ 1
    | OrderStatus.partially_fulfilled ↦ 2
    | OrderStatus.fulfilled ↦ 3
    | OrderStatus.cancelled ↦ 4
    | OrderStatus.refunded ↦ 5
    | OrderStatus.rejected ↦ 6
  ];
}

pub data PaymentStatus : Type 0 where
  created pending processing waiting_confirmation authorized paid : PaymentStatus
  failed cancelled refunded void expired : PaymentStatus

instance abbrev pub payment_status : Enum PaymentStatus
payment_status = record {
  place = elim [
    | PaymentStatus.created ↦ 0
    | PaymentStatus.pending ↦ 1
    | PaymentStatus.processing ↦ 2
    | PaymentStatus.waiting_confirmation ↦ 3
    | PaymentStatus.authorized ↦ 4
    | PaymentStatus.paid ↦ 5
    | PaymentStatus.failed ↦ 6
    | PaymentStatus.cancelled ↦ 7
    | PaymentStatus.refunded ↦ 8
    | PaymentStatus.void ↦ 9
    | PaymentStatus.expired ↦ 10
  ];
}

pub data ReturnStatus : Type 0 where
  pending under_review evidence_required approved rejected : ReturnStatus
  cj_dispute_submitted cj_dispute_under_review cj_approved cj_rejected : ReturnStatus
  refund_processing replacement_processing return_processing : ReturnStatus
  completed cancelled : ReturnStatus

instance abbrev pub return_status : Enum ReturnStatus
return_status = record {
  place = elim [
    | ReturnStatus.pending ↦ 0
    | ReturnStatus.under_review ↦ 1
    | ReturnStatus.evidence_required ↦ 2
    | ReturnStatus.approved ↦ 3
    | ReturnStatus.rejected ↦ 4
    | ReturnStatus.cj_dispute_submitted ↦ 5
    | ReturnStatus.cj_dispute_under_review ↦ 6
    | ReturnStatus.cj_approved ↦ 7
    | ReturnStatus.cj_rejected ↦ 8
    | ReturnStatus.refund_processing ↦ 9
    | ReturnStatus.replacement_processing ↦ 10
    | ReturnStatus.return_processing ↦ 11
    | ReturnStatus.completed ↦ 12
    | ReturnStatus.cancelled ↦ 13
  ];
}

pub data RefundStatus : Type 0 where
  pending processing completed failed : RefundStatus

instance abbrev pub refund_status : Enum RefundStatus
refund_status = record {
  place = elim [
    | RefundStatus.pending ↦ 0
    | RefundStatus.processing ↦ 1
    | RefundStatus.completed ↦ 2
    | RefundStatus.failed ↦ 3
  ];
}

pub data DisputeStatus : Type 0 where
  submitted under_review approved rejected cancelled failed_to_submit : DisputeStatus

pub data SyncStatus : Type 0 where
  pending success failed : SyncStatus

instance abbrev pub sync_status : Enum SyncStatus
sync_status = record {
  place = elim [ SyncStatus.pending ↦ 0 | SyncStatus.success ↦ 1 | SyncStatus.failed ↦ 2 ];
}

pub data SupplierOrderStatus : Type 0 where
  pending placed confirmed shipped delivered failed cancelled : SupplierOrderStatus

pub data RequestType : Type 0 where
  refund replacement physical_return : RequestType

pub data CostCoveredBy : Type 0 where
  cj addictstyle customer_not_refunded split : CostCoveredBy

pub data ActorRole : Type 0 where
  customer admin system : ActorRole

pub data Gateway : Type 0 where
  paymongo stripe paypal xendit maya : Gateway

instance abbrev pub gateway_enum : Enum Gateway
gateway_enum = record {
  place = elim [
    | Gateway.paymongo ↦ 0
    | Gateway.stripe ↦ 1
    | Gateway.paypal ↦ 2
    | Gateway.xendit ↦ 3
    | Gateway.maya ↦ 4
  ];
}

pub data Channel : Type 0 where
  card ewallet bank_transfer qr cash_on_delivery : Channel

instance abbrev pub channel_enum : Enum Channel
channel_enum = record {
  place = elim [
    | Channel.card ↦ 0
    | Channel.ewallet ↦ 1
    | Channel.bank_transfer ↦ 2
    | Channel.qr ↦ 3
    | Channel.cash_on_delivery ↦ 4
  ];
}
